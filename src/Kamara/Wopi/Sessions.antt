-- ===== src/Kamara/Wopi/Sessions.antt =====
-- What a token of wopi.go opens: Validate after Mint and after Revoke.
use peristera.Prelude.{
  ◌≡◌, ◌≢◌, refl, sym, ap, ◌∙◌, String, Bool, true, false, Option, none, some, List, [], ◌∷◌,
  str_eq, eq_refl, ltb, Bool-cases, Option-cases, inl, inr, Result, ok, err,
}
use peristera.Prelude.Exec.{lift, ◌>>=◌, continue, Keeps}
use peristera.Database.{Db, stmt}
use peristera.Database.Rules.{On, Leads, Leads-stmt, Keeps-stmt}
use peristera.Kamara.Blob.{BlobStore}
use peristera.Kamara.Chunk.{Sizes}
use peristera.Kamara.Crypto.{Primitives, Cipher}
use peristera.Kamara.Tables.{SessionRow, ManifestRow, FileTables}
use peristera.Kamara.Store.RefCounts.Owed.{IsCounted}
use peristera.Kamara.Files.{Authorizer, World, file_name, on_db, on_authz, clock}
use peristera.Kamara.Wopi.{
  find_session, get_session, not_of_object, revoke, Sha256, token_hash, unexpired_at, if_allowed,
  validate,
}

-- No session of the file is found after Revoke.
find_session-not_of_object :
    (hash id : String) (sessions : List SessionRow) (s : SessionRow)
    → find_session hash (not_of_object id sessions) ≡ some s
    → s.object_id ≢ id
unfolding find_session not_of_object
find_session-not_of_object hash id [] s e q = cc
find_session-not_of_object hash id (x ∷ sessions) s e q =
    elim (Bool-cases (str_eq id x.object_id)) [
      | inl gone ↦ find_session-not_of_object hash id sessions s (rw gone at e) q
      | inr stays ↦ elim (Bool-cases (str_eq hash x.token_hash)) [
        | inr miss ↦ find_session-not_of_object hash id sessions s (rw (stays, miss) at e) q
        | inl hit ↦
            let found : some x ≡ some s = rw (stays, hit) at e in
            let same : x.object_id ≡ id =
              ap (λ (o : Option SessionRow). elim o [ none ↦ id | some y ↦ y.object_id ]) found
              ∙ q in
            cc (stays, same, eq_refl id)
      ]
    ]

module _ (B : BlobStore) (prim : Primitives) (c : Cipher) (sz : Sizes) (az : Authorizer)
    (sum : Sha256) where
  -- What Validate has made sure of when it returns a session.
  pub record IsValid (token : String) (w : World B prim c sz az) (s : SessionRow) : Type 0 where
    pub given : token ≢ ""
    pub stored : find_session (token_hash sum token) w.db.tables.wopi_sessions ≡ some s
    pub live : ltb s.expires w.db.now ≡ false
    pub allowed : (az.check s.subject "can_access" (file_name s.object_id) w.authz).0 ≡ ok true

  -- The answer of the authorization service.
  checked :
      (token : String) (w w' : World B prim c sz az) (s a : SessionRow) (r : Result Bool)
      → token ≢ ""
      → find_session (token_hash sum token) w.db.tables.wopi_sessions ≡ some s
      → ltb s.expires w.db.now ≡ false
      → (az.check s.subject "can_access" (file_name s.object_id) w.authz).0 ≡ r
      → (continue r (λ b. lift (if_allowed B prim c sz az sum s b)) w').0 ≡ ok a
      → IsValid token w a
  checked token w w' s a (err x) g f l q e = cc
  checked token w w' s a (ok false) g f l q e = cc
  checked token w w' s a (ok true) g f l q e =
      let same : s ≡ a = cc in rw (← same) (record { given = g; stored = f; live = l; allowed = q })

  after_found :
      (token : String) (w : World B prim c sz az) (d : Db FileTables) (a : SessionRow)
      (o : Option SessionRow)
      → token ≢ ""
      → o ≡ find_session (token_hash sum token) w.db.tables.wopi_sessions
      → d.now ≡ w.db.now
      → (continue
          (unexpired_at B prim c sz az sum d.now o)
          (λ s.
            on_authz B prim c sz az (az.check s.subject "can_access" (file_name s.object_id))
            >>= λ b. lift (if_allowed B prim c sz az sum s b))
          (record w { db = d })).0
        ≡ ok a
      → IsValid token w a
  unfolding ◌>>=◌ on_authz
  after_found token w d a none g f t e = cc
  after_found token w d a (some s) g f t e = elim (Bool-cases (ltb s.expires d.now)) [
    | inl late ↦ cc (rw (late, continue) at e)
    | inr live ↦
        checked token w _ s a (az.check s.subject "can_access" (file_name s.object_id) w.authz).0 g
          (sym f) (rw t at live) refl (rw (live, continue) at e)
  ]

  after_get :
      (token : String) (w : World B prim c sz az) (r : Result (Option SessionRow))
      (d : Db FileTables) (a : SessionRow)
      → token ≢ ""
      → ((o : Option SessionRow)
          → r ≡ ok o
          → o ≡ find_session (token_hash sum token) w.db.tables.wopi_sessions)
      → d.now ≡ w.db.now
      → (continue r
          (λ found. clock B prim c sz az >>= λ now.
            lift (unexpired_at B prim c sz az sum now found) >>= λ s.
            on_authz B prim c sz az (az.check s.subject "can_access" (file_name s.object_id))
            >>= λ b. lift (if_allowed B prim c sz az sum s b))
          (record w { db = d })).0
        ≡ ok a
      → IsValid token w a
  unfolding ◌>>=◌
  after_get token w (err x) d a g f t e = cc
  after_get token w (ok o) d a g f t e = after_found token w d a o g (f o refl) t e

  get_session-now : (hash : String) (db : Db FileTables) → (get_session hash db).1.now ≡ db.now
  unfolding get_session stmt
  get_session-now hash db = elim (Option-cases (db.faults db.calls)) [
    | inl fine ↦ rw (fine, stmt) refl
    | inr (x, fault) ↦ rw (fault, stmt) refl
  ]

  get_session-found :
      (hash : String) (sessions : List SessionRow)
      → Leads
          (λ t. t.wopi_sessions ≡ sessions)
          (get_session hash)
          (λ o t. o ≡ find_session hash sessions)
  unfolding get_session
  get_session-found hash sessions = Leads-stmt _ _ _ (λ t a same e. rw (← same) (cc))

  -- A session that Validate returns is stored under the hash of a token that is not empty, has not
  -- expired, and the authorization service has just answered that its subject has access to its file.
  pub validate_sound :
      (token : String) (w : World B prim c sz az) (s : SessionRow)
      → (validate B prim c sz az sum token w).0 ≡ ok s
      → IsValid token w s
  unfolding validate on_db ◌>>=◌
  validate_sound token w s e = elim (Bool-cases (str_eq token "")) [
    | inl empty ↦ cc (rw empty at e)
    | inr given ↦
        after_get token w (get_session (token_hash sum token) w.db).0
          (get_session (token_hash sum token) w.db).1 s (λ q. cc (rw q at given))
          (λ o q.
            (get_session-found (token_hash sum token) w.db.tables.wopi_sessions).run w.db o refl q)
          (get_session-now (token_hash sum token) w.db) (rw given at e)
  ]

  revoke-not_of_object :
      (id : String) (sessions : List SessionRow)
      → Leads
          (λ t. t.wopi_sessions ≡ sessions)
          (revoke id)
          (λ _ t. t.wopi_sessions ≡ not_of_object id sessions)
  unfolding revoke
  revoke-not_of_object id sessions = Leads-stmt _ _ _ (λ t a same e. ap (not_of_object id) same)

  -- After a Revoke that returned no error, no token validates to a session of the file.
  pub revoke_ends_sessions :
      (id : String) (w : World B prim c sz az)
      → (on_db B prim c sz az (revoke id) w).0 ≡ ok tt
      → (token : String) (s : SessionRow)
      → (validate B prim c sz az sum token (on_db B prim c sz az (revoke id) w).1).0 ≡ ok s
      → s.object_id ≢ id
  unfolding on_db
  revoke_ends_sessions id w done token s e =
      find_session-not_of_object (token_hash sum token) id w.db.tables.wopi_sessions s (
        ap (find_session (token_hash sum token))
          (sym ((revoke-not_of_object id w.db.tables.wopi_sessions).run w.db tt refl done))
        ∙ (validate_sound token _ s e).stored)

-- Revoke touches neither the manifest nor the counts, as Delete wants of its revoker.
pub revoke-LeavesManifest :
    (rows : List ManifestRow) (id : String) → Keeps (On (λ t. t.version_chunks ≡ rows)) (revoke id)
unfolding revoke
revoke-LeavesManifest rows id = Keeps-stmt (λ t. t.version_chunks ≡ rows) _ (λ t h. h)

pub revoke-IsCounted : (id : String) → Keeps (On IsCounted) (revoke id)
unfolding revoke
revoke-IsCounted id = Keeps-stmt IsCounted _ (λ t w. record { counted = w.counted })
