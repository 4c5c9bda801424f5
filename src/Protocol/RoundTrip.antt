-- ===== src/Protocol/RoundTrip.antt =====
-- The parser against the wire formats that the comments of `SealedOperation` give.
use local_rusty_indexer_poc.Prelude.{
  ℕ, zero, suc, ◌≡◌, ◌↔◌, refl, ap, subst, ◌∙◌, inl, inr, false, none, some, [], ◌∷◌, ◌++◌, arith,
  ◌==◌, is_empty, take, drop, All, Option-cases,
}
use local_rusty_indexer_poc.Bytes.{
  Bytes, strip_prefix, position, strip_prefix_sound, strip_prefix-append,
}
use local_rusty_indexer_poc.Protocol.{
  SealedOperation, sealed_message_or_sealed_handshake_vnone, contextual_message_v1, payment_v1,
  protocol_prefix, version_1_part, payment_tag, comm_tag, parse_comm, parse_version_1,
  parse_content, parse_sealed_operation,
}

-- the content behind the protocol prefix
unfoldable pub content : SealedOperation → Bytes
content (sealed_message_or_sealed_handshake_vnone op) = op.sealed_hex
content (contextual_message_v1 op) =
    version_1_part ++ (comm_tag ++ (op.alias ++ (b':' ∷ op.sealed_hex)))
content (payment_v1 op) = version_1_part ++ (payment_tag ++ op.sealed_hex)

-- the wire format
unfoldable pub payload : SealedOperation → Bytes
unfolding content
payload op = protocol_prefix ++ content op

abbrev NotColon : ℕ → Type 0
NotColon b = (b == b':') ≡ false

-- What the wire format can carry: an alias has no colon, and an unversioned message is not empty
-- and does not look versioned.
abbrev pub IsExpressible : SealedOperation → Type 0
IsExpressible (sealed_message_or_sealed_handshake_vnone op) =
    (is_empty op.sealed_hex ≡ false) × (strip_prefix version_1_part op.sealed_hex ≡ none)
IsExpressible (contextual_message_v1 op) = All NotColon op.alias
IsExpressible (payment_v1 op) = Unit {0}

-- `position` splits the bytes at the first occurrence.
position_splits :
    (c : ℕ) (s : Bytes) (i : ℕ)
    → position c s ≡ some i
    → (s ≡ take i s ++ (c ∷ drop (suc i) s)) × All (λ b. (b == c) ≡ false) (take i s)
unfolding position
position_splits c [] i h = cc
position_splits c (x ∷ xs) zero h = (ground arith, tt)
position_splits c (x ∷ xs) (suc i) h =
    let (split, before) = position_splits c xs i (ground arith) in
    (ap (◌∷◌ x) split, (ground arith, before))

position-append :
    (c : ℕ) (a r : Bytes)
    → All (λ b. (b == c) ≡ false) a
    → (i : ℕ) × (position c (a ++ (c ∷ r)) ≡ some i)
      × (take i (a ++ (c ∷ r)) ≡ a)
      × (drop (suc i) (a ++ (c ∷ r)) ≡ r)
unfolding position
position-append c [] r h = (0, ground arith, refl, refl)
position-append c (x ∷ a) r h =
    let (i, p, t, d) = position-append c a r h.1 in (suc i, ground arith, ap (◌∷◌ x) t, d)

-- what a parse of `rest`, found behind `front`, has to give
abbrev Denotes : Bytes → Bytes → SealedOperation → Type 0
Denotes front rest op = (front ++ rest ≡ content op) × IsExpressible op

parse_comm_sound :
    (r : Bytes) (op : SealedOperation)
    → parse_comm r ≡ some op
    → Denotes (version_1_part ++ comm_tag) r op
unfolding parse_comm content
parse_comm_sound r op h = elim (Option-cases (position b':' r)) [
  | inl e ↦ absurd (ground arith)
  | inr (i, e) ↦
      let (split, before) = position_splits b':' r i e in
      subst (Denotes (version_1_part ++ comm_tag) r)
        {x = contextual_message_v1 (record { alias = take i r; sealed_hex = drop (suc i) r })}
        (ground arith) (ap (λ s. version_1_part ++ (comm_tag ++ s)) split, before)
]

parse_version_1_sound :
    (body : Bytes) (op : SealedOperation)
    → parse_version_1 body ≡ some op
    → Denotes version_1_part body op
unfolding parse_version_1 content
parse_version_1_sound body op h = elim (Option-cases (strip_prefix payment_tag body)) [
  | inr (hex, e) ↦
      subst (Denotes version_1_part body) {x = payment_v1 (record { sealed_hex = hex })}
        (ground arith)
        (ap (λ s. version_1_part ++ s) (strip_prefix_sound payment_tag body hex e), tt)
  | inl e ↦ elim (Option-cases (strip_prefix comm_tag body)) [
    | inl e' ↦ absurd (ground arith)
    | inr (r, e') ↦
        rw (strip_prefix_sound comm_tag body r e') (parse_comm_sound r op (ground arith))
  ]
]

parse_content_sound :
    (c : Bytes) (op : SealedOperation)
    → is_empty c ≡ false
    → parse_content c ≡ some op
    → Denotes [] c op
unfolding parse_content content
parse_content_sound c op nonempty h = elim (Option-cases (strip_prefix version_1_part c)) [
  | inl e ↦
      subst (Denotes [] c)
        {x = sealed_message_or_sealed_handshake_vnone (record { sealed_hex = c })} (ground arith)
        (refl, (nonempty, e))
  | inr (body, e) ↦
      rw (strip_prefix_sound version_1_part c body e) (parse_version_1_sound body op (ground arith))
]

parse_sound :
    (p : Bytes) (op : SealedOperation)
    → parse_sealed_operation p ≡ some op
    → (p ≡ payload op) × IsExpressible op
unfolding parse_sealed_operation payload
parse_sound p op h = elim (Option-cases (strip_prefix protocol_prefix p)) [
  | inl e ↦ absurd (ground arith)
  | inr (c, e) ↦
      let (same, fits) = parse_content_sound c op (ground arith) (ground arith) in
      (strip_prefix_sound protocol_prefix p c e ∙ ap (λ s. protocol_prefix ++ s) same, fits)
]

parse_complete :
    (op : SealedOperation) → IsExpressible op → parse_sealed_operation (payload op) ≡ some op
unfolding parse_sealed_operation payload strip_prefix
parse_complete (sealed_message_or_sealed_handshake_vnone op) h =
    ground (arith, strip_prefix-append protocol_prefix op.sealed_hex)
parse_complete (payment_v1 op) h = refl
parse_complete (contextual_message_v1 op) h =
    let (i, found, before, after) = position-append b':' op.alias op.sealed_hex h in ground arith

-- The parser and the wire format agree: a payload parses as an operation exactly when it is the
-- wire format of that operation and the operation is one that the format can express.
pub parse_sealed_operation_iff :
    (p : Bytes) (op : SealedOperation)
    → (parse_sealed_operation p ≡ some op) ↔ ((p ≡ payload op) × IsExpressible op)
parse_sealed_operation_iff p op = (parse_sound p op, λ h. rw h.0 (parse_complete op h.1))
