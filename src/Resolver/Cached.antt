-- ===== src/Resolver/Cached.antt =====
-- What is found once is not asked for again.
use local_rusty_indexer_poc.Prelude.{
  ◌≡◌, ◌⊎◌, ◌≤◌, ◌<◌, refl, sym, ap, ◌∙◌, Bool, true, false, Option, none, some, List, [], ◌∷◌,
  length, Result, ok, err, arith, Bool-cases, inl, inr,
}
use local_rusty_indexer_poc.Bytes.{Bytes}
use local_rusty_indexer_poc.FifoSet.{RingSet, FifoSet}
use local_rusty_indexer_poc.FifoSet as Fifo
use local_rusty_indexer_poc.FifoSet.Window.{IsValid, insert_all, contains-insert_all}
use local_rusty_indexer_poc.Metadata.{Cursor}
use local_rusty_indexer_poc.Resolver.{
  Round, Resolver, one_less, respond, answer_block, handle_block_request, with_retries,
}

module _ (r : RingSet) (Address : Type 0) where
  -- the cache is as it was, or the hash has been put into it
  abbrev Kept : Bytes → FifoSet r → FifoSet r → Type 0
  Kept hash before after = (after ≡ before) ⊎ (after ≡ (Fifo.insert r before hash).0)

  some_ok : {s s' : Resolver r Address} → some (ok s) ≡ some (ok s') → s ≡ s'
  some_ok h = cc

  abbrev cache : Resolver r Address → FifoSet r
  cache s = s.block_requests_cache

  answer_found :
      (is_open : Bool) (hash : Bytes) (header : Cursor) (s s' : Resolver r Address)
      → some (answer_block r Address is_open hash (ok header) s) ≡ some (ok s')
      → cache s' ≡ (Fifo.insert r (cache s) hash).0
  unfolding answer_block respond
  answer_found true hash header s s' h = sym (ap cache (some_ok h))
  answer_found false hash header s s' h = absurd (cc)

  call-Kept :
      (round : Round Address) (hash : Bytes) (answer : Option (Result Cursor))
      (s s' : Resolver r Address)
      → (elim answer as (λ _. Option (Result (Resolver r Address))) [
        | none ↦ none
        | some a ↦ some (answer_block r Address round.is_open hash a s)
      ])
        ≡ some (ok s')
      → Kept hash (cache s) (cache s')
  call-Kept round hash none s s' h = absurd (cc)
  call-Kept round hash (some (ok header)) s s' h =
      inr (answer_found round.is_open hash header s s' h)
  call-Kept round hash (some (err e)) s s' h = inl (refused round.is_open h)
    where
      refused :
          (is_open : Bool)
          → some (answer_block r Address is_open hash (err e) s) ≡ some (ok s')
          → cache s' ≡ cache s
      refused true k = unfold answer_block respond in sym (ap cache (some_ok k))
      refused false k = unfold answer_block respond in absurd (cc)

  handle_block_request-Kept :
      (round : Round Address) (hash : Bytes) (s s' : Resolver r Address)
      → handle_block_request r Address round hash s ≡ some (ok s')
      → Kept hash (cache s) (cache s')
  unfolding handle_block_request
  handle_block_request-Kept round hash s s' h = elim (Bool-cases (Fifo.contains r (cache s) hash)) [
    | inl cached ↦ inl (sym (ap cache (some_ok (rw cached at h))))
    | inr new ↦ call-Kept round hash (with_retries round.header_attempts) s s' (rw new at h)
  ]

  -- the requests were handled in turn without an error
  abbrev pub Handled :
      List (Round Address × Bytes) → Resolver r Address → Resolver r Address → Type 0
  Handled [] s s' = s' ≡ s
  Handled ((round, hash) ∷ rest) s s' =
      (s1 : Resolver r Address) × (handle_block_request r Address round hash s ≡ some (ok s1))
      × Handled rest s1 s'

  Handled-insert_all :
      (requests : List (Round Address × Bytes)) (s s' : Resolver r Address)
      → Handled requests s s'
      → (ks : List Bytes) × (length ks ≤ length requests)
        × (s'.block_requests_cache ≡ insert_all r s.block_requests_cache ks)
  unfolding insert_all
  Handled-insert_all [] s s' h =
      ([], omega arith, ap (λ (t : Resolver r Address). t.block_requests_cache) h)
  Handled-insert_all ((round, hash) ∷ rest) s s' (s1, first, later) =
      let (ks, few, all) = Handled-insert_all rest s1 s' later in
      elim (handle_block_request-Kept round hash s s1 first) [
        | inl same ↦ (ks, omega arith, all ∙ ap (λ c. insert_all r c ks) same)
        | inr put ↦ (hash ∷ ks, omega arith, all ∙ ap (λ c. insert_all r c ks) put)
      ]

  -- A block whose header was found is not asked for again while fewer further block requests than
  -- the cache has room for were handled without an error: whatever the node would answer, the
  -- request sends nothing and only takes itself off the count.
  pub handle_block_request_once :
      (round : Round Address) (hash : Bytes) (header : Cursor) (s : Resolver r Address)
      (requests : List (Round Address × Bytes)) (s1 s2 : Resolver r Address) (again : Round Address)
      → IsValid r s.block_requests_cache
      → Fifo.contains r s.block_requests_cache hash ≡ false
      → with_retries round.header_attempts ≡ some (ok header)
      → handle_block_request r Address round hash s ≡ some (ok s1)
      → Handled requests s1 s2
      → length requests < r.capacity s.block_requests_cache.set
      → handle_block_request r Address again hash s2
        ≡ some (ok (record s2 { requests_in_progress = one_less s2.requests_in_progress }))
  unfolding handle_block_request
  handle_block_request_once round hash header s requests s1 s2 again valid new answered ran handled
        few =
      let put = answer_found round.is_open hash header s s1 (rw (new, answered) at ran) in
      let (ks, fewer, all) = Handled-insert_all requests s1 s2 handled in
      let seen : Fifo.contains r (cache s2) hash ≡ true =
        rw (all, put) (contains-insert_all r (cache s) hash ks valid new (omega arith)) in
      rw seen refl
