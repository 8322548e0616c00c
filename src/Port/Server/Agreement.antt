-- ===== src/Port/Server/Agreement.antt =====
-- What each step of the server keeps.
use js_ipfs.Prelude.{
  ◌≡◌, refl, ◌∙◌, ℕ, ◌+◌, Bool, true, false, not, Option, none, some, List, [], ◌∷◌, ◌++◌, ◌==◌,
  nat_eq, if◌then◌else◌, lookup, insert, lookup-insert, arith, Bool-cases, inl, inr,
}
use js_ipfs.Port.Server.{
  Phase, running, awaiting, ended, is_running, is_awaiting, Outcome, Query, Server, listed,
  unlisted, handle_query, resume, reply, settle, abort,
}

-- How many messages answer a query.
abbrev pub answers : {V : Type 0} → ℕ → List (ℕ × Outcome V) → ℕ
answers id [] = 0
answers id ((j, o) ∷ ms) = if j == id then answers id ms + 1 else answers id ms

answers-append :
    {V : Type 0} (id j : ℕ) (o : Outcome V) (ms : List (ℕ × Outcome V))
    → answers id (ms ++ (j, o) ∷ []) ≡ (if j == id then answers id ms + 1 else answers id ms)
answers-append id j o [] = refl
answers-append id j o ((k, p) ∷ ms) =
    ground (arith, answers-append id j o ms, nat_eq.beq_iff j id, nat_eq.beq_iff k id)

listed-unlisted :
    (id j : ℕ) (ids : List ℕ)
    → listed id (unlisted j ids) ≡ (if j == id then false else listed id ids)
listed-unlisted id j [] = ground arith
listed-unlisted id j (k ∷ ids) =
    ground (
      arith,
      listed-unlisted id j ids,
      nat_eq.beq_iff j id,
      nat_eq.beq_iff k id,
      nat_eq.beq_iff k j,
    )

-- A query is in the dictionary just until the microtask has run or it is aborted; it has one answer at
-- its end, and none if it was aborted.
abbrev pub At : Phase → Bool → Bool → ℕ → Type 0
At running aborted l n = (l ≡ not aborted) × (n ≡ 0)
At awaiting aborted l n = (aborted ≡ false) × (l ≡ false) × (n ≡ 0)
At ended aborted l n = (l ≡ false) × (n ≡ (if aborted then 0 else 1))

abbrev pub Agrees : {V : Type 0} → Option (Query V) → Bool → ℕ → Type 0
Agrees none l n = (l ≡ false) × (n ≡ 0)
Agrees (some q) l n = At q.phase q.aborted l n

At-resumed :
    (p : Phase) (a l : Bool) (n : ℕ)
    → is_running p ≡ true
    → At p a l n
    → At (if a then ended else awaiting) a false n
At-resumed running true l n r (e, z) = (refl, z)
At-resumed running false l n r (e, z) = (refl, refl, z)
At-resumed awaiting a l n r h = cc
At-resumed ended a l n r h = cc

At-replied :
    (p : Phase) (a l : Bool) (n : ℕ) → is_awaiting p ≡ true → At p a l n → At ended a l (n + 1)
At-replied running a l n r h = cc
At-replied awaiting a l n r (quiet, e, z) = (e, ground (arith, quiet, z))
At-replied ended a l n r h = cc

At-aborted : (p : Phase) (a l : Bool) (n : ℕ) → l ≡ true → At p a l n → At p true false n
At-aborted running a l n t (e, z) = (refl, z)
At-aborted awaiting a l n t (quiet, e, z) = cc
At-aborted ended a l n t (e, z) = cc

pub At-late : (p : Phase) (a l : Bool) (n : ℕ) → is_running p ≡ false → At p a l n → l ≡ false
At-late running a l n r h = cc
At-late awaiting a l n r (quiet, e, z) = e
At-late ended a l n r (e, z) = e

module _ {V : Type 0} where
  abbrev pub IsSound : Server V → ℕ → Type 0
  IsSound s id = Agrees (lookup id s.queries) (listed id s.table) (answers id s.posted)

  -- The object of one query is changed.
  changed-IsSound :
      (j : ℕ) (q : Query V) (table : List ℕ) (posted : List (ℕ × Outcome V)) (s : Server V) (id : ℕ)
      → ((j == id) ≡ true → Agrees (some q) (listed id table) (answers id posted))
      → ((j == id) ≡ false
          → (listed id table ≡ listed id s.table) × (answers id posted ≡ answers id s.posted))
      → IsSound s id
      → IsSound (record { queries = insert j q s.queries; table = table; posted = posted }) id
  changed-IsSound j q table posted s id here away h = elim (Bool-cases (j == id)) [
    | inl e ↦
        let l : lookup id (insert j q s.queries) ≡ some q =
          lookup-insert j id q s.queries ∙ (rw e refl) in
        rw l (here e)
    | inr e ↦
        let l : lookup id (insert j q s.queries) ≡ lookup id s.queries =
          lookup-insert j id q s.queries ∙ (rw e refl) in
        rw l (rw ((away e).0, (away e).1) h)
  ]

  -- What holds of a query that is found.
  found :
      (j id : ℕ) (q : Query V) (s : Server V)
      → lookup j s.queries ≡ some q
      → (j == id) ≡ true
      → IsSound s id
      → At q.phase q.aborted (listed id s.table) (answers id s.posted)
  found j id q s f e h =
      let l : lookup id s.queries ≡ some q = rw ((nat_eq.beq_iff j id).0 e) at f in rw l at h

  pub handle_query-IsSound :
      (j : ℕ) (thrown : Option V) (s : Server V) (id : ℕ)
      → lookup j s.queries ≡ none
      → IsSound s id
      → IsSound (handle_query j thrown s) id
  unfolding handle_query
  handle_query-IsSound j thrown s id f h =
      changed-IsSound j _ (j ∷ s.table) s.posted s id
        (λ e.
          let l : lookup id s.queries ≡ none = rw ((nat_eq.beq_iff j id).0 e) at f in
          let z = rw l at h in (rw e refl, z.1))
        (λ e. (rw e refl, refl)) h

  pub resume-IsSound :
      (j : ℕ) (q : Query V) (s : Server V) (id : ℕ)
      → lookup j s.queries ≡ some q
      → is_running q.phase ≡ true
      → IsSound s id
      → IsSound (resume j q s) id
  unfolding resume
  resume-IsSound j q s id f r h =
      let u = listed-unlisted id j s.table in
      changed-IsSound j _ (unlisted j s.table) s.posted s id
        (λ e.
          let gone : listed id (unlisted j s.table) ≡ false = u ∙ (rw e refl) in
          rw gone (At-resumed q.phase q.aborted _ _ r (found j id q s f e h)))
        (λ e. (u ∙ (rw e refl), refl)) h

  pub reply-IsSound :
      (j : ℕ) (q : Query V) (o : Outcome V) (s : Server V) (id : ℕ)
      → lookup j s.queries ≡ some q
      → is_awaiting q.phase ≡ true
      → IsSound s id
      → IsSound (reply j q o s) id
  unfolding reply
  reply-IsSound j q o s id f r h =
      let c = answers-append id j o s.posted in
      changed-IsSound j _ s.table (s.posted ++ (j, o) ∷ []) s id
        (λ e.
          let more : answers id (s.posted ++ (j, o) ∷ []) ≡ answers id s.posted + 1 =
            c ∙ (rw e refl) in
          rw more (At-replied q.phase q.aborted _ _ r (found j id q s f e h)))
        (λ e. (refl, c ∙ (rw e refl))) h

  pub settle-IsSound :
      (j : ℕ) (q : Query V) (o : Outcome V) (s : Server V) (id : ℕ)
      → lookup j s.queries ≡ some q
      → IsSound s id
      → IsSound (settle j o q s) id
  unfolding settle
  settle-IsSound j q o s id f h =
      changed-IsSound j _ s.table s.posted s id (λ e. found j id q s f e h) (λ e. (refl, refl)) h

  pub abort-IsSound :
      (j : ℕ) (q : Query V) (s : Server V) (id : ℕ)
      → lookup j s.queries ≡ some q
      → IsSound s id
      → IsSound (abort j q s) id
  unfolding abort
  abort-IsSound j q s id f h = elim (Bool-cases (listed j s.table)) [
    | inl there ↦
        let u = listed-unlisted id j s.table in
        rw there (
          changed-IsSound j _ (unlisted j s.table) s.posted s id
            (λ e.
              let gone : listed id (unlisted j s.table) ≡ false = u ∙ (rw e refl) in
              let there' : listed id s.table ≡ true = rw ((nat_eq.beq_iff j id).0 e) at there in
              rw gone (At-aborted q.phase q.aborted _ _ there' (found j id q s f e h)))
            (λ e. (u ∙ (rw e refl), refl)) h)
    | inr away ↦ rw away h
  ]
