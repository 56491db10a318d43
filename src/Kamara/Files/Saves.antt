-- ===== src/Kamara/Files/Saves.antt =====
-- writeVersion of file.go: the ordinals, the base of an edit, and the retries.
use peristera.Prelude.{
  ℕ, suc, zero, ◌+◌, ◌-◌, ◌≡◌, refl, sym, ap, ◌∙◌, String, Bool, true, false, ◌&&◌, Option, none,
  some, List, Result, ok, err, not_found, arith, Bool-cases, inl, inr,
}
use peristera.Prelude.Exec.{Exec, raise, Triple, Keeps-then}
use peristera.Pii.{Subject}
use peristera.Database.{fresh_id, in_tx}
use peristera.Database.Rules.{Leads, Leads-stmt, Leads-bind, Leads-pure, Keeps-Leads}
use peristera.Database.Atomic.{in_tx-Outcome, begun}
use peristera.Conventions.Frame.{IsFrame, emit-Frame}
use peristera.Kamara.Blob.{BlobStore}
use peristera.Kamara.Chunk.{Sizes}
use peristera.Kamara.Chunk.Split.{Reader}
use peristera.Kamara.Crypto.{Primitives, Cipher}
use peristera.Kamara.Engine.{ChunkRef}
use peristera.Kamara.Tables.{FileTables, file_tables}
use peristera.Kamara.Store.{max_of, insert_version, max_ordinal, set_object_size}
use peristera.Kamara.Store.Versions.{insert_version-max_of}
use peristera.Kamara.Files.{
  Authorizer, World, on_db, next_ordinal, save_version, save_round, retried, save_rounds,
  write_version, is_conflict, max_attempts,
}
use peristera.Kamara.Files.Counted.{InDb, authorize-Keeps, ingest_from-Keeps}

-- What a save that returned `ordinal` did, from the tables `t0` to `t`.
pub record IsSaved (id : String) (base : Option ℕ) (t0 : FileTables) (ordinal : ℕ) (t : FileTables)
    : Type 0 where
  pub latest : ℕ
  pub was_latest : max_of id t0.versions ≡ some latest
  pub is_next : ordinal ≡ latest + 1
  pub based : (b : ℕ) → base ≡ some b → b ≡ latest
  pub is_latest : max_of id t.versions ≡ some ordinal

record IsNext (id : String) (base : Option ℕ) (t0 : FileTables) (ordinal : ℕ) (t : FileTables)
    : Type 0 where
  latest : ℕ
  was_latest : max_of id t0.versions ≡ some latest
  is_next : ordinal ≡ latest + 1
  based : (b : ℕ) → base ≡ some b → b ≡ latest
  same : t ≡ t0

next_ordinal-IsNext :
    (id : String) (base : Option ℕ) (t0 t : FileTables) (o : Option ℕ) (n : ℕ)
    → o ≡ max_of id t.versions
    → t ≡ t0
    → next_ordinal base o ≡ ok n
    → IsNext id base t0 n t
unfolding next_ordinal
next_ordinal-IsNext id none t0 t none n q same e = cc
next_ordinal-IsNext id (some b) t0 t none n q same e = cc
next_ordinal-IsNext id none t0 t (some m) n q same e = record {
  latest = m;
  was_latest = ap (λ (x : FileTables). max_of id x.versions) (sym same) ∙ sym q;
  is_next = ground arith;
  based = λ b h. cc;
  same = same;
}
next_ordinal-IsNext id (some b) t0 t (some m) n q same e = record {
  latest = m;
  was_latest = ap (λ (x : FileTables). max_of id x.versions) (sym same) ∙ sym q;
  is_next = ground arith;
  based = λ x h. ground arith;
  same = same;
}

max_is-IsFrame : (id : String) (n : ℕ) → IsFrame file_tables (λ t. max_of id t.versions ≡ some n)
max_is-IsFrame id n t c h = h

save_version-IsSaved :
    (caller : Subject) (id : String) (base : Option ℕ) (version : String) (total : ℕ)
    (refs : List ChunkRef) (t0 : FileTables)
    → Leads
        (λ t. t ≡ t0)
        (save_version caller id base version total refs)
        (λ n t. IsSaved id base t0 n t)
unfolding save_version max_ordinal set_object_size
save_version-IsSaved caller id base version total refs t0 =
    Leads-bind (λ o t. (o ≡ max_of id t.versions) × (t ≡ t0)) _ _
      (Leads-stmt _ _ _ (λ t a same e. (cc, same)))
      (λ latest.
        Leads-bind (λ n t. IsNext id base t0 n t) _ _
          (record {
            run = λ db n (q, same) e. next_ordinal-IsNext id base t0 db.tables latest n q same e;
          })
          (λ ordinal.
            Leads-bind (λ _ t. IsNext id base t0 ordinal t) _ _ (record { run = λ db n h e. h })
              (λ now.
                Leads-bind (λ _ t. IsSaved id base t0 ordinal t) _ _ (inserted ordinal now)
                  (λ _.
                    Leads-bind (λ _ t. IsSaved id base t0 ordinal t) _ _
                      (Leads-stmt _ _ _ (λ t a h e. record {
                        latest = h.latest;
                        was_latest = h.was_latest;
                        is_next = h.is_next;
                        based = h.based;
                        is_latest = h.is_latest;
                      }))
                      (λ _.
                        Leads-bind (λ _ t. IsSaved id base t0 ordinal t) _ _
                          (Keeps-Leads _ _ (
                            emit-Frame file_tables (IsSaved id base t0 ordinal)
                              (IsSaved-IsFrame ordinal) _ _ _))
                          (λ _. Leads-pure _ _ ordinal (λ t h. h)))))))
  where
    inserted :
        (ordinal now : ℕ)
        → Leads
            (λ t. IsNext id base t0 ordinal t)
            (insert_version id version ordinal total refs now)
            (λ _ t. IsSaved id base t0 ordinal t)
    inserted ordinal now = record {
      run = λ db u h e. record {
        latest = h.latest;
        was_latest = h.was_latest;
        is_next = h.is_next;
        based = h.based;
        is_latest =
            (insert_version-max_of id version h.latest ordinal total refs now t0.versions h.is_next
                h.was_latest).run
              db u (ap (λ (x : FileTables). x.versions) h.same) e;
      };
    }

    IsSaved-IsFrame : (ordinal : ℕ) → IsFrame file_tables (IsSaved id base t0 ordinal)
    IsSaved-IsFrame ordinal t c h = record {
      latest = h.latest;
      was_latest = h.was_latest;
      is_next = h.is_next;
      based = h.based;
      is_latest = h.is_latest;
    }

module _ (B : BlobStore) (prim : Primitives) (c : Cipher) (sz : Sizes) (az : Authorizer) where
  -- A save that is done, or that failed and left the tables as they were.
  abbrev pub SavedOrSame : String → Option ℕ → FileTables → Result ℕ → World B prim c sz az → Type 0
  SavedOrSame id base t0 (ok n) w = IsSaved id base t0 n w.db.tables
  SavedOrSame id base t0 (err e) w = w.db.tables ≡ t0

  module _ (caller : Subject) (id : String) (base : Option ℕ) (total : ℕ) (refs : List ChunkRef)
      (t0 : FileTables) where
    save_tx-SavedOrSame :
        (version : String)
        → Triple
            (InDb B prim c sz az (λ t. t ≡ t0))
            (on_db B prim c sz az (in_tx (save_version caller id base version total refs)))
            (SavedOrSame id base t0)
    unfolding on_db
    save_tx-SavedOrSame version = record {
      run = λ w h. elim (in_tx-Outcome (save_version caller id base version total refs) w.db) [
        | inl (e, failed, same) ↦ rw failed (same ∙ h)
        | inr (n, done, ran, same) ↦
            rw (done, same)
              ((save_version-IsSaved caller id base version total refs t0).run (begun w.db) n h ran)
      ];
    }

    save_round-SavedOrSame :
        Triple
          (InDb B prim c sz az (λ t. t ≡ t0))
          (save_round B prim c sz az caller id base total refs)
          (SavedOrSame id base t0)
    unfolding save_round on_db fresh_id
    save_round-SavedOrSame =
        Keeps-then {Q = SavedOrSame id base t0} _ _ (record { at = λ w h. h }) save_tx-SavedOrSame
          (λ e w h. h)

    retried-SavedOrSame :
        (again : Exec (World B prim c sz az) ℕ) (more : Bool) (r : Result ℕ)
        (w : World B prim c sz az)
        → Triple (InDb B prim c sz az (λ t. t ≡ t0)) again (SavedOrSame id base t0)
        → SavedOrSame id base t0 r w
        → SavedOrSame id base t0
            (retried B prim c sz az again more r w).0
            (retried B prim c sz az again more r w).1
    retried-SavedOrSame again more (ok n) w k h = h
    retried-SavedOrSame again more (err e) w k h = elim (Bool-cases (more && is_conflict e)) [
      | inl q ↦ rw q (k.run w h)
      | inr q ↦ rw q h
    ]

    save_rounds-SavedOrSame :
        (n : ℕ)
        → Triple
            (InDb B prim c sz az (λ t. t ≡ t0))
            (save_rounds B prim c sz az n caller id base total refs)
            (SavedOrSame id base t0)
    unfolding save_rounds
    save_rounds-SavedOrSame zero = record {
      run = λ w h.
          retried-SavedOrSame (raise not_found) false _ _ (record { run = λ v k. k })
            (save_round-SavedOrSame.run w h);
    }
    save_rounds-SavedOrSame (suc n) = record {
      run = λ w h.
          retried-SavedOrSame _ true _ _ (save_rounds-SavedOrSame n)
            (save_round-SavedOrSame.run w h);
    }

  -- WriteVersion and WriteVersionAt, whose base is `base`: where they return an error the tables are as
  -- they were. Where they return an ordinal it is one more than the object's latest, which was
  -- the base that the caller named if it named one, and it is the object's latest ordinal now. So an edit
  -- of an older version is not saved.
  pub write_version_saves :
      (caller : Subject) (id : String) (r : Reader) (base : Option ℕ) (w : World B prim c sz az)
      → SavedOrSame id base w.db.tables
          (write_version B prim c sz az caller id r base w).0
          (write_version B prim c sz az caller id r base w).1
  unfolding write_version
  write_version_saves caller id r base w =
      (Keeps-then {P = InDb B prim c sz az (λ t. t ≡ w.db.tables)}
          {Q = SavedOrSame id base w.db.tables} _ _
          (authorize-Keeps B prim c sz az (λ t. t ≡ w.db.tables) caller id)
          (λ _.
            Keeps-then {Q = SavedOrSame id base w.db.tables} _ _
              (ingest_from-Keeps B prim c sz az (λ t. t ≡ w.db.tables) r)
              (λ (refs, total).
                save_rounds-SavedOrSame caller id base total refs w.db.tables (max_attempts - 1))
              (λ e v h. h))
          (λ e v h. h)).run
        w refl
