-- ===== src/Kamara/Files/Access.antt =====
-- The authorization of file.go: a caller without access reaches neither the database nor the blobs.
use peristera.Prelude.{ℕ, ◌≡◌, refl, String, false, Option, ok, err, wrapped, forbidden}
use peristera.Prelude.Exec.{Exec, ◌>>=◌, continue}
use peristera.Pii.{Subject}
use peristera.Kamara.Blob.{BlobStore}
use peristera.Kamara.Chunk.{Sizes}
use peristera.Kamara.Chunk.Split.{Reader}
use peristera.Kamara.Crypto.{Primitives, Cipher}
use peristera.Kamara.Store.{Store}
use peristera.Kamara.Files.{
  Authorizer, World, file_name, on_authz, authorize_access, authorize, latest_ordinal, get_file,
  write_version, delete_file,
}

module _ (B : BlobStore) (prim : Primitives) (c : Cipher) (sz : Sizes) (az : Authorizer) where
  -- The world after the question of access alone.
  abbrev pub asked : Subject → String → World B prim c sz az → World B prim c sz az
  asked caller id w = record w { authz = (az.check caller "can_access" (file_name id) w.authz).1 }

  abbrev pub Refused :
      {A : Type 0}
      → Subject
      → String
      → World B prim c sz az
      → Exec (World B prim c sz az) A
      → Type 0
  Refused caller id w m = m w ≡ (err (wrapped (file_name id) forbidden), asked caller id w)

  authorize-Refused :
      (caller : Subject) (id : String) (w : World B prim c sz az)
      → (az.check caller "can_access" (file_name id) w.authz).0 ≡ ok false
      → Refused caller id w (authorize B prim c sz az caller id)
  unfolding authorize authorize_access on_authz ◌>>=◌
  authorize-Refused caller id w denied = rw (denied, continue) refl

  bind-Refused :
      {A C : Type 0} (caller : Subject) (id : String) (w : World B prim c sz az)
      (m : Exec (World B prim c sz az) A) (f : A → Exec (World B prim c sz az) C)
      → Refused caller id w m
      → Refused caller id w (m >>= f)
  unfolding ◌>>=◌
  bind-Refused caller id w m f h = rw (h, continue) refl

  -- If the authorization service denies the caller access to the file, then LatestOrdinal, Get,
  -- WriteVersion, WriteVersionAt and Delete return the error that says so, and change neither the
  -- database nor a blob, nor do they ask the service anything else.
  pub denied_caller_changes_nothing :
      (caller : Subject) (id : String) (w : World B prim c sz az)
      → (az.check caller "can_access" (file_name id) w.authz).0 ≡ ok false
      → Refused caller id w (latest_ordinal B prim c sz az caller id)
        × Refused caller id w (get_file B prim c sz az caller id)
        × ((r : Reader) (base : Option ℕ)
            → Refused caller id w (write_version B prim c sz az caller id r base))
        × ((revoker : Option (String → Store (Unit {0})))
            → Refused caller id w (delete_file B prim c sz az revoker caller id))
  unfolding latest_ordinal get_file write_version delete_file
  denied_caller_changes_nothing caller id w denied =
      let q : Refused caller id w (authorize B prim c sz az caller id) =
        authorize-Refused caller id w denied in
      (
        bind-Refused caller id w _ _ q,
        bind-Refused caller id w _ _ q,
        λ r base. bind-Refused caller id w _ _ q,
        λ revoker. bind-Refused caller id w _ _ q,
      )
