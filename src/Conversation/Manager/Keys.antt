-- ===== src/Conversation/Manager/Keys.antt =====
-- On the operations of `ConversationManager`: the map key by key, and the draw of a free id.
use rust_bert.Prelude.{
  ℕ, ◌≤◌, ◌<◌, ◌≡◌, refl, sym, ◌∙◌, inl, inr, true, false, none, some, List, [], ◌∷◌, arith, ◌==◌,
  if◌then◌else◌, Bool-cases, length, contains, AllDifferent,
}
use rust_bert.Conversation.State.{Conversation}
use rust_bert.Conversation.Manager.{
  Conversations, ConversationManager, lookup, contains_key, without, get, fresh_uuid, add,
}

-- No key is bound twice.
abbrev pub Distinct : Conversations → Type 0
Distinct [] = Unit
Distinct ((k, c) ∷ m) = (contains_key k m ≡ false) × Distinct m

lookup-without :
    (k j : ℕ) (m : Conversations) → lookup j (without k m) ≡ (if k == j then none else lookup j m)
unfolding lookup without
lookup-without k j [] = ground arith
lookup-without k j ((i, c) ∷ m) = ground (arith, lookup-without k j m)

contains_key-without :
    (k i : ℕ) (m : Conversations) → contains_key i m ≡ false → contains_key i (without k m) ≡ false
unfolding contains_key
contains_key-without k i m h = ground (arith, lookup-without k i m)

contains_key-none : (k : ℕ) (m : Conversations) → contains_key k m ≡ false → lookup k m ≡ none
unfolding contains_key
contains_key-none k m h = ground arith

pub without-Distinct : (k : ℕ) (m : Conversations) → Distinct m → Distinct (without k m)
unfolding without
without-Distinct k [] d = tt
without-Distinct k ((i, c) ∷ m) d = elim (Bool-cases (i == k)) [
  | inl e ↦ rw e (without-Distinct k m d.1)
  | inr e ↦ rw e (contains_key-without k i m d.0, without-Distinct k m d.1)
]

fresh_uuid-free :
    (m : Conversations) (drawn : List ℕ) (k : ℕ)
    → fresh_uuid m drawn ≡ some k
    → contains_key k m ≡ false
unfolding fresh_uuid
fresh_uuid-free m [] k h = ground arith
fresh_uuid-free m (j ∷ drawn) k h = ground (arith, fresh_uuid-free m drawn k)

fresh_uuid-without :
    (k : ℕ) (m : Conversations) (drawn : List ℕ)
    → contains drawn k ≡ false
    → fresh_uuid (without k m) drawn ≡ fresh_uuid m drawn
unfolding fresh_uuid
fresh_uuid-without k m [] h = refl
fresh_uuid-without k m (j ∷ drawn) h =
    ground (arith, lookup-without k j m, fresh_uuid-without k m drawn)

length-without_le : (k : ℕ) (m : Conversations) → length (without k m) ≤ length m
unfolding without
length-without_le k [] = omega arith
length-without_le k ((i, c) ∷ m) = ground (arith, length-without_le k m)

length-without_lt :
    (k : ℕ) (m : Conversations) → contains_key k m ≡ true → length (without k m) < length m
unfolding without contains_key lookup
length-without_lt k [] h = ground arith
length-without_lt k ((i, c) ∷ m) h = ground (arith, length-without_le k m, length-without_lt k m)

fresh_uuid-taken :
    (m : Conversations) (j : ℕ) (drawn : List ℕ)
    → contains_key j m ≡ true
    → fresh_uuid m (j ∷ drawn) ≡ fresh_uuid m drawn
unfolding fresh_uuid
fresh_uuid-taken m j drawn e = ground arith

fresh_uuid_total :
    (m : Conversations) (drawn : List ℕ)
    → AllDifferent drawn
    → length m < length drawn
    → (k : ℕ) × (fresh_uuid m drawn ≡ some k)
fresh_uuid_total m [] d h = elim h [ ]
fresh_uuid_total m (j ∷ drawn) d h = elim (Bool-cases (contains_key j m)) [
  | inl e ↦
      let found =
        fresh_uuid_total (without j m) drawn d.1 (omega (arith, length-without_lt j m e)) in
      (found.0, fresh_uuid-taken m j drawn e ∙ sym (fresh_uuid-without j m drawn d.0) ∙ found.1)
  | inr e ↦ (j, unfold fresh_uuid in ground arith)
]

-- `add` ends once it has drawn more different ids than there are conversations: it binds one that was
-- free, leaves every other key as it was, and keeps the keys distinct.
pub add_total :
    (m : ConversationManager) (c : Conversation) (drawn : List ℕ)
    → Distinct m.conversations
    → AllDifferent drawn
    → length m.conversations < length drawn
    → (m' : ConversationManager) × (k : ℕ) × (add m c drawn ≡ some (m', k))
      × (get m k ≡ none)
      × ((j : ℕ) → get m' j ≡ (if k == j then some c else get m j))
      × Distinct m'.conversations
unfolding add get
add_total m c drawn d n h =
    let (k, found) = fresh_uuid_total m.conversations drawn n h in
    let free = fresh_uuid-free m.conversations drawn k found in
    (
      record { conversations = (k, c) ∷ m.conversations },
      k,
      rw (found, add),
      contains_key-none k m.conversations free,
      λ j. refl,
      (free, d),
    )
