-- ===== src/Conventions/Pseudonym.antt =====
-- Pseudonyms (pseudonym.go over PseudonymStore of pgconv.go): one token for a subject, and its erasure.
use peristera.Prelude.{
  ◌≡◌, ◌≢◌, refl, sym, ap, ◌∙◌, String, true, false, Option, none, some, List, [], ◌∷◌, ◌++◌, arith,
  str_eq, eq_iff, eq_refl, if◌then◌else◌, Result, ok, err, Error, inl, inr, Bool-cases,
  Option-cases,
}
use peristera.Prelude.Exec.{Keeps}
use peristera.Pii.{Subject, same_subject}
use peristera.Database.{Db, fresh_id}
use peristera.Database.Rules.{On, Leads, Leads-bind, Leads-pure, Leads-fresh_id, Leads-mono}
use peristera.Conventions.{
  PseudonymRow, Tables, Lens, find_token, find_subject, without_subject, inserted, insert_pseudonym,
  lookup_token, save_token, erase_subject, winner, after_save, save_new, token_or_new, token_for,
}
use peristera.Conventions.Frame.{on_tables-Leads, on_tables-Keeps, token_for-Keeps}

pub same_subject_refl : (s : Subject) → same_subject s s ≡ true
same_subject_refl s = rw (eq_refl s.home_instance, eq_refl s.user_id)

same_subject-eq : (s t : Subject) → same_subject s t ≡ true → s ≡ t
same_subject-eq s t h =
    ground (arith, eq_iff s.home_instance t.home_instance, eq_iff s.user_id t.user_id)

find_token-append :
    (s : Subject) (rows : List PseudonymRow) (r : PseudonymRow)
    → find_token s rows ≡ none
    → find_token s (rows ++ r ∷ []) ≡ (if same_subject s r.subject then some r.token else none)
unfolding find_token
find_token-append s [] r h = refl
find_token-append s (x ∷ rows) r h = ground (arith, find_token-append s rows r)

insert-find_token :
    (tok : String) (s : Subject) (rows : List PseudonymRow)
    → (insert_pseudonym tok s rows).0 ≡ ok tt
    → find_token s (insert_pseudonym tok s rows).1 ≡ some tok
unfolding insert_pseudonym inserted
insert-find_token tok s rows h = elim (Option-cases (find_token s rows)) [
  | inr (x, e) ↦ cc (rw e at h)
  | inl e ↦ elim (Option-cases (find_subject tok rows)) [
    | inr (x, f) ↦ cc (rw (e, f) at h)
    | inl f ↦
        rw (e, f)
          (find_token-append s rows (record { token = tok; subject = s }) e
            ∙ rw (same_subject_refl s))
  ]
]

find_token-append_some :
    (j : Subject) (old : String) (rows : List PseudonymRow) (r : PseudonymRow)
    → find_token j rows ≡ some old
    → find_token j (rows ++ r ∷ []) ≡ some old
unfolding find_token
find_token-append_some j old [] r h = cc
find_token-append_some j old (x ∷ rows) r h = ground (arith, find_token-append_some j old rows r)

insert-keeps_token :
    (j : Subject) (old tok : String) (s : Subject) (rows : List PseudonymRow)
    → find_token j rows ≡ some old
    → find_token j (insert_pseudonym tok s rows).1 ≡ some old
unfolding insert_pseudonym inserted
insert-keeps_token j old tok s rows h =
    ground (arith, find_token-append_some j old rows (record { token = tok; subject = s }))

module _ {T : Type 0} (l : Lens T) where
  abbrev pub TokenIs : Subject → String → T → Type 0
  TokenIs s tok t = find_token s (l.view t).pseudonyms ≡ some tok

  abbrev Any : Tables → Type 0
  Any c = Unit {0}

  lookup_token-Leads :
      (s : Subject)
      → Leads (λ t. Unit {0}) (lookup_token l s) (λ o t. o ≡ find_token s (l.view t).pseudonyms)
  unfolding lookup_token
  lookup_token-Leads s =
      on_tables-Leads l Any (λ o c. o ≡ find_token s c.pseudonyms) _ (λ c a _ e. cc)

  save_token-Leads :
      (tok : String) (s : Subject)
      → Leads (λ t. Unit {0}) (save_token l tok s) (λ _ t. TokenIs s tok t)
  unfolding save_token
  save_token-Leads tok s =
      on_tables-Leads l Any (λ _ c. find_token s c.pseudonyms ≡ some tok) _
        (λ c a _ e. insert-find_token tok s c.pseudonyms e)

  winner-ok :
      (e : Error) (r : Result (Option String)) (a : String) → winner l e r ≡ ok a → r ≡ ok (some a)
  unfolding winner
  winner-ok e (ok (some x)) a h = ground arith
  winner-ok e (ok none) a h = cc
  winner-ok e (err x) a h = cc

  after_save-TokenIs :
      (s : Subject) (tok : String) (r : Result (Unit {0})) (db : Db T) (a : String)
      → (r ≡ ok tt → TokenIs s tok db.tables)
      → (after_save l s tok r db).0 ≡ ok a
      → TokenIs s a (after_save l s tok r db).1.tables
  unfolding after_save
  after_save-TokenIs s tok (ok u) db a k h = let e : tok ≡ a = cc in rw (← e) (k refl)
  after_save-TokenIs s tok (err x) db a k h =
      sym ((lookup_token-Leads s).run db (some a) tt (winner-ok x (lookup_token l s db).0 a h))

  save_new-Leads :
      (s : Subject) (tok : String) → Leads (λ t. Unit {0}) (save_new l s tok) (λ a t. TokenIs s a t)
  unfolding save_new
  save_new-Leads s tok = record {
    run = λ db a _ h.
        after_save-TokenIs s tok (save_token l tok s db).0 (save_token l tok s db).1 a
          ((save_token-Leads tok s).run db tt tt) h;
  }

  token_or_new-Leads :
      (s : Subject) (o : Option String)
      → Leads
          (λ t. o ≡ find_token s (l.view t).pseudonyms)
          (token_or_new l s o)
          (λ a t. TokenIs s a t)
  unfolding token_or_new
  token_or_new-Leads s (some tok) = Leads-pure _ _ tok (λ t h. sym h)
  token_or_new-Leads s none =
      Leads-bind (λ _ t. Unit {0}) fresh_id (save_new l s)
        (Leads-mono _ _ _ (λ t h. tt) (λ a t h. h) (Leads-fresh_id (λ t. Unit {0})))
        (save_new-Leads s)

  pub token_for-TokenIs :
      (s : Subject) → Leads (λ t. Unit {0}) (token_for l s) (λ a t. TokenIs s a t)
  unfolding token_for
  token_for-TokenIs s =
      Leads-bind (λ o t. o ≡ find_token s (l.view t).pseudonyms) (lookup_token l s)
        (token_or_new l s) (lookup_token-Leads s) (token_or_new-Leads s)

  lookup_token-Keeps :
      (j : Subject) (old : String) (s : Subject) → Keeps (On (TokenIs j old)) (lookup_token l s)
  unfolding lookup_token
  lookup_token-Keeps j old s =
      on_tables-Keeps l (λ c. find_token j c.pseudonyms ≡ some old) _ (λ c h. h)

  save_token-Keeps :
      (j : Subject) (old tok : String) (s : Subject)
      → Keeps (On (TokenIs j old)) (save_token l tok s)
  unfolding save_token
  save_token-Keeps j old tok s =
      on_tables-Keeps l (λ c. find_token j c.pseudonyms ≡ some old) _
        (λ c h. insert-keeps_token j old tok s c.pseudonyms h)

  -- Whatever races are lost on the way: a token that is returned is the one that the subject is mapped
  -- to afterwards, and no subject that had a token gets another. So a subject that had a token is
  -- given this one.
  pub token_for_stable :
      (s j : Subject) (old : String) (db : Db T)
      → TokenIs j old db.tables
      → TokenIs j old (token_for l s db).1.tables
        × ((tok : String)
            → (token_for l s db).0 ≡ ok tok
            → TokenIs s tok (token_for l s db).1.tables × (j ≡ s → tok ≡ old))
  token_for_stable s j old db h = (kept, λ tok e. (now tok e, λ q. same tok e q))
    where
      kept : TokenIs j old (token_for l s db).1.tables
      kept =
          (token_for-Keeps l (TokenIs j old) (lookup_token-Keeps j old) (save_token-Keeps j old)
              s).at
            db h

      now :
          (tok : String) → (token_for l s db).0 ≡ ok tok → TokenIs s tok (token_for l s db).1.tables
      now tok e = (token_for-TokenIs s).run db tok tt e

      same : (tok : String) → (token_for l s db).0 ≡ ok tok → j ≡ s → tok ≡ old
      same tok e q = cc (now tok e, kept, q)

find_token-without :
    (s : Subject) (rows : List PseudonymRow) → find_token s (without_subject s rows) ≡ none
unfolding find_token without_subject
find_token-without s [] = refl
find_token-without s (r ∷ rows) = ground (arith, find_token-without s rows)

find_subject-without :
    (tok : String) (s : Subject) (rows : List PseudonymRow)
    → find_subject tok (without_subject s rows) ≢ some s
unfolding find_subject without_subject
find_subject-without tok s [] h = cc
find_subject-without tok s (r ∷ rows) h = elim (Bool-cases (same_subject s r.subject)) [
  | inl gone ↦ find_subject-without tok s rows (rw gone at h)
  | inr other ↦ elim (Bool-cases (str_eq tok r.token)) [
    | inl hit ↦
        let e : some r.subject ≡ some s = rw (other, hit) at h in
        let q : s ≡ r.subject = ground arith in
        cc (other, same_subject_refl s, ap (same_subject s) q)
    | inr miss ↦ find_subject-without tok s rows (rw (other, miss) at h)
  ]
]

same_subject-ne : (s t : Subject) → s ≢ t → same_subject s t ≡ false
same_subject-ne s t ne = elim (Bool-cases (same_subject s t)) [
  | inl e ↦ elim (ne (same_subject-eq s t e)) [ ]
  | inr e ↦ e
]

find_token-without_other :
    (s j : Subject) (rows : List PseudonymRow)
    → j ≢ s
    → find_token j (without_subject s rows) ≡ find_token j rows
unfolding find_token without_subject
find_token-without_other s j [] ne = refl
find_token-without_other s j (r ∷ rows) ne = elim (Bool-cases (same_subject s r.subject)) [
  | inl gone ↦
      let other : same_subject j r.subject ≡ false =
        same_subject-ne j r.subject (λ q. ne (q ∙ sym (same_subject-eq s r.subject gone))) in
      rw (gone, other, find_token-without_other s j rows ne)
  | inr stays ↦ rw (stays, find_token-without_other s j rows ne)
]

module _ {T : Type 0} (l : Lens T) where
  -- What erasure of `s` leaves of the rows that there were.
  abbrev pub IsErased : Subject → List PseudonymRow → List PseudonymRow → Type 0
  IsErased s before rows =
      (find_token s rows ≡ none)
      × ((tok : String) → find_subject tok rows ≢ some s)
      × ((j : Subject) → j ≢ s → find_token j rows ≡ find_token j before)

  -- After an erasure that returned no error, the subject has no token and no token resolves to the
  -- subject; every other subject has the token, or none, that it had.
  pub erase_subject-IsErased :
      (s : Subject) (db : Db T)
      → (erase_subject l s db).0 ≡ ok tt
      → IsErased s (l.view db.tables).pseudonyms (l.view (erase_subject l s db).1.tables).pseudonyms
  unfolding erase_subject
  erase_subject-IsErased s db h =
      (on_tables-Leads l (λ c. c ≡ l.view db.tables)
          (λ _ c. IsErased s (l.view db.tables).pseudonyms c.pseudonyms) _
          (λ c a e _. rw e (
            find_token-without s (l.view db.tables).pseudonyms,
            λ tok. find_subject-without tok s (l.view db.tables).pseudonyms,
            λ j ne. find_token-without_other s j (l.view db.tables).pseudonyms ne,
          ))).run
        db tt refl h
