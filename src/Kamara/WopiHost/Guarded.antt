-- ===== src/Kamara/WopiHost/Guarded.antt =====
-- PutFile of the WOPI host (kamara/internal/api/wopi.go) through the session check of
-- kamara/internal/wopi: what a request can write.
use peristera.Prelude.{
  ℕ, ◌≡◌, ◌≢◌, refl, subst, String, true, not, ◌&&◌, ◌⊎◌, inl, inr, none, str_eq, eq_iff,
  Bool-cases, arith, Result, ok, err, Error, not_found, forbidden, invalid_session,
}
use peristera.Prelude.Errors.{root_of, is_invalid_session}
use peristera.Prelude.Exec.{Keeps, Keeps-raise, Keeps-lift, Keeps-bind}
use peristera.Database.Rules.{Keeps-stmt}
use peristera.Kamara.Blob.{BlobStore}
use peristera.Kamara.Chunk.{Sizes}
use peristera.Kamara.Chunk.Split.{Reader}
use peristera.Kamara.Crypto.{Primitives, Cipher}
use peristera.Kamara.Tables.{SessionRow, FileTables}
use peristera.Kamara.Files.{Authorizer, World, write_version}
use peristera.Kamara.Files.Counted.{InDb, on_db-Keeps, on_authz-Keeps}
use peristera.Kamara.Files.Saves.{IsSaved, SavedOrSame, write_version_saves}
use peristera.Kamara.Wopi.{Sha256, validate, get_session}
use peristera.Kamara.Wopi.Sessions.{IsValid, validate_sound}
use peristera.Kamara.Api.{max_bytes, is_too_large}
use peristera.Kamara.WopiHost.{
  WopiResponse, item_version, reply, fail_root, fail_wopi, fail_put, fail_session, in_session,
  with_session, then_version, wopi_put_file,
}

fail_root-ne-ok : (e : Error) → fail_root e ≢ 200
fail_root-ne-ok not_found q = absurd (omega arith)
fail_root-ne-ok forbidden q = absurd (omega arith)
fail_root-ne-ok _ q = absurd (omega arith)

fail_put-ne-ok : (e : Error) → (fail_put e).status ≢ 200
unfolding fail_put fail_wopi
fail_put-ne-ok e = elim (Bool-cases (is_too_large e)) [
  | inl large ↦ rw large (λ q. absurd (omega arith))
  | inr other ↦ rw other (fail_root-ne-ok (root_of e))
]

fail_session-ne-ok : (e : Error) → (fail_session e).status ≢ 200
unfolding fail_session
fail_session-ne-ok e = elim (Bool-cases (is_invalid_session e)) [
  | inl invalid ↦ rw invalid (λ q. absurd (omega arith))
  | inr other ↦ rw other (λ q. absurd (omega arith))
]

module _ (B : BlobStore) (prim : Primitives) (c : Cipher) (sz : Sizes) (az : Authorizer)
    (sum : Sha256) where
  -- A write that the session allows: the session of the token is for this file and may write, and the
  -- version saved is the one after the latest.
  pub record Allowed (token id : String) (w : World B prim c sz az) (r : WopiResponse)
      (t : FileTables) : Type 0 where
    pub session : SessionRow
    pub valid : IsValid B prim c sz az sum token w session
    pub scoped : session.object_id ≡ id
    pub writable : session.can_write ≡ true
    pub ordinal : ℕ
    pub replied : r ≡ reply 200 (item_version ordinal)
    pub saved : IsSaved id none w.db.tables ordinal t

  validate-Keeps :
      (token : String) (t0 : FileTables)
      → Keeps (InDb B prim c sz az (λ t. t ≡ t0)) (validate B prim c sz az sum token)
  unfolding validate get_session
  validate-Keeps token t0 = elim (Bool-cases (str_eq token "")) [
    | inl empty ↦ rw empty (Keeps-raise invalid_session)
    | inr given ↦ rw given (
        Keeps-bind _ _
          (on_db-Keeps B prim c sz az (λ t. t ≡ t0) _ (Keeps-stmt (λ t. t ≡ t0) _ (λ t h. h)))
          (λ found.
            Keeps-bind _ _ (record { at = λ w h. h })
              (λ now. Keeps-bind _ _ (Keeps-lift _) (λ s.
                Keeps-bind _ _ (on_authz-Keeps B prim c sz az (λ t. t ≡ t0) _)
                  (λ b. Keeps-lift _)))))
  ]

  -- Nothing is written and the reply is no success, or the write is allowed.
  abbrev pub Outcome : String → String → World B prim c sz az → WopiResponse → FileTables → Type 0
  Outcome token id w r t = ((r.status ≢ 200) × (t ≡ w.db.tables)) ⊎ Allowed token id w r t

  version-Outcome :
      (token id : String) (w : World B prim c sz az) (s : SessionRow) (r : Result ℕ)
      (v : World B prim c sz az)
      → IsValid B prim c sz az sum token w s
      → s.object_id ≡ id
      → s.can_write ≡ true
      → SavedOrSame B prim c sz az id none w.db.tables r v
      → Outcome token id w (then_version B prim c sz az sum r) v.db.tables
  version-Outcome token id w s (ok n) v valid scoped writable saved = inr (record {
    session = s;
    valid = valid;
    scoped = scoped;
    writable = writable;
    ordinal = n;
    replied = refl;
    saved = saved;
  })
  version-Outcome token id w s (err e) v valid scoped writable same = inl (fail_put-ne-ok e, same)

  put-Outcome :
      (token override : String) (max : ℕ) (body : Reader) (w v : World B prim c sz az)
      (s : SessionRow)
      → IsValid B prim c sz az sum token w s
      → v.db.tables ≡ w.db.tables
      → let (r, after) = wopi_put_file B prim c sz az sum max override body s v in
        Outcome token s.object_id w r after.db.tables
  unfolding wopi_put_file
  put-Outcome token override max body w v s valid same =
      elim (Bool-cases (not (str_eq override "") && not (str_eq override "PUT"))) [
        | inl other ↦ rw other (inl ((λ q. absurd (omega arith)), same))
        | inr put ↦ elim (Bool-cases s.can_write) [
          | inr reads ↦ rw (put, reads) (inl ((λ q. absurd (omega arith)), same))
          | inl writes ↦
              rw (put, writes)
                (version-Outcome token s.object_id w s _ _ valid refl writes (
                  subst
                    (λ t.
                      SavedOrSame B prim c sz az s.object_id none t
                        (write_version B prim c sz az s.subject s.object_id (max_bytes max body)
                          none v).0
                        (write_version B prim c sz az s.subject s.object_id (max_bytes max body)
                          none v).1)
                    same
                    (write_version_saves B prim c sz az s.subject s.object_id (max_bytes max body)
                      none v)))
        ]
      ]

  session-Outcome :
      (token id override : String) (max : ℕ) (body : Reader) (w v : World B prim c sz az)
      (r : Result SessionRow)
      → ((s : SessionRow) → r ≡ ok s → IsValid B prim c sz az sum token w s)
      → v.db.tables ≡ w.db.tables
      → let (reply, after) =
          in_session B prim c sz az sum
            (wopi_put_file B prim c sz az sum max override body)
            id
            r
            v in
        Outcome token id w reply after.db.tables
  session-Outcome token id override max body w v (err e) valid same =
      inl (fail_session-ne-ok e, same)
  session-Outcome token id override max body w v (ok s) valid same =
      elim (Bool-cases (str_eq s.object_id id)) [
        | inl mine ↦
            let (reply, after) = wopi_put_file B prim c sz az sum max override body s v in
            rw mine (
              subst (λ i. Outcome token i w reply after.db.tables) ((eq_iff s.object_id id).0 mine)
                (put-Outcome token override max body w v s (valid s refl) same))
        | inr other ↦ rw other (inl ((λ q. absurd (omega arith)), same))
      ]

  -- PutFile with any token, file, override and body either replies with a status other than 200 and
  -- leaves every table as it was, or the token is valid, its session is for that file and may write,
  -- and the version that the reply names is saved as the one after the latest.
  pub put_file-guarded :
      (token id override : String) (max : ℕ) (body : Reader) (w : World B prim c sz az)
      → let (r, after) =
          with_session B prim c sz az sum
            (wopi_put_file B prim c sz az sum max override body)
            token
            id
            w in
        Outcome token id w r after.db.tables
  unfolding with_session
  put_file-guarded token id override max body w =
      session-Outcome token id override max body w _ _ (validate_sound B prim c sz az sum token w)
        ((validate-Keeps token w.db.tables).at w refl)
