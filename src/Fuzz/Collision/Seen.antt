-- ===== src/Fuzz/Collision/Seen.antt =====
-- What the target remembers, and where it fails.
use malda_lending_fuzz.Prelude.{
  ◌<◌, ◌^◌, ◌≡◌, ◌↔◌, refl, sym, ap, ◌∙◌, arith, true, Option, none, some, List, [], ◌∷◌, ◌==◌,
  ==_refl, ok, ok_unique, ◌⊎◌, bind_ok, assert_ok, Bool-cases, inl, inr, hash_collision,
}
use malda_lending_fuzz.Bytes.{Bytes, B256}
use malda_lending_fuzz.Externals.{Externals}
use malda_lending_fuzz.Cryptography.{signature_msg, signing_data}
use malda_lending_fuzz.Cryptography.Laws.{signature_msg-injective}
use malda_lending_fuzz.Fuzz.Commitment.{bytes_eq}
use malda_lending_fuzz.Fuzz.Commitment.Parsed.{bytes_eq_refl}
use malda_lending_fuzz.Fuzz.Collision.{
  FuzzInput, same_input, Hashes, get, check_or_insert, fuzz_collision, fuzz_run,
}
use mathlib.Core.List.{Memᴰ}
use mathlib.Core.List.Memᴰ.{head, tail}

bytes_eq_sound : (xs ys : Bytes) → bytes_eq xs ys ≡ true → xs ≡ ys
unfolding bytes_eq
bytes_eq_sound [] [] h = refl
bytes_eq_sound [] (y ∷ ys) h = absurd (cc)
bytes_eq_sound (x ∷ xs) [] h = absurd (cc)
bytes_eq_sound (x ∷ xs) (y ∷ ys) h =
    let heads : x ≡ y = ground arith in let tails = bytes_eq_sound xs ys (ground arith) in cc

same_input_sound : (a b : FuzzInput) → same_input a b ≡ true → a ≡ b
unfolding same_input
same_input_sound a b h =
    let payloads = bytes_eq_sound a.payload b.payload (ground arith) in
    let chains : a.chain_id ≡ b.chain_id = ground arith in cc

same_input_refl : (a : FuzzInput) → same_input a a ≡ true
unfolding same_input
same_input_refl a = rw (bytes_eq_refl a.payload, ==_refl a.chain_id) refl

get-own :
    (seen : Hashes) (hash : B256) (input : FuzzInput) → get ((hash, input) ∷ seen) hash ≡ some input
unfolding get
get-own seen hash input = rw (==_refl hash) refl

-- An entry for a new hash hides no other.
get-other :
    (seen : Hashes) (hash key : B256) (input found : FuzzInput)
    → get seen hash ≡ none
    → get seen key ≡ some found
    → get ((hash, input) ∷ seen) key ≡ some found
unfolding get
get-other seen hash key input found fresh stored = elim (Bool-cases (hash == key)) [
  | inl same ↦ let e : hash ≡ key = ground arith in absurd (cc)
  | inr differs ↦ rw differs stored
]

check_or_insert_sound :
    (found : Option FuzzInput) (hash : B256) (input : FuzzInput) (seen after : Hashes)
    → get seen hash ≡ found
    → check_or_insert found hash input seen ≡ ok after
    → (get after hash ≡ some input)
      × ((key : B256) (a : FuzzInput) → get seen key ≡ some a → get after key ≡ some a)
unfolding check_or_insert
check_or_insert_sound none hash input seen after fresh h =
    let inserted : ((hash, input) ∷ seen) ≡ after = ok_unique refl h in
    (
      rw (← inserted) (get-own seen hash input),
      λ key a stored. rw (← inserted) (get-other seen hash key input a fresh stored),
    )
check_or_insert_sound (some existing) hash input seen after found h =
    assert_ok (same_input existing input) hash_collision _ h λ same h₁.
      let kept : seen ≡ after = ok_unique refl h₁ in
      let own = found ∙ ap some (same_input_sound existing input same) in
      (rw (← kept) own, λ key a stored. rw (← kept) stored)

check_or_insert_complete :
    (found : Option FuzzInput) (hash : B256) (input : FuzzInput) (seen : Hashes)
    → ((existing : FuzzInput) → found ≡ some existing → existing ≡ input)
    → (after : Hashes) × (check_or_insert found hash input seen ≡ ok after)
      × ((after ≡ seen) ⊎ (after ≡ (hash, input) ∷ seen))
unfolding check_or_insert
check_or_insert_complete none hash input seen unique = ((hash, input) ∷ seen, refl, inr refl)
check_or_insert_complete (some existing) hash input seen unique =
    (seen, rw (unique existing refl, same_input_refl input) refl, inl refl)

module _ (X : Externals) where
  -- The inputs that give the same message to sign are the same.
  abbrev pub Unique : List FuzzInput → Type 0
  Unique inputs =
      (a b : FuzzInput)
      → Memᴰ a inputs
      → Memᴰ b inputs
      → signature_msg X a.payload a.chain_id ≡ signature_msg X b.payload b.chain_id
      → a ≡ b

  -- What is stored comes from the inputs, under its own message.
  abbrev pub Stored : List FuzzInput → Hashes → Type 0
  Stored inputs seen =
      (hash : B256) (a : FuzzInput)
      → get seen hash ≡ some a
      → Memᴰ a inputs × (signature_msg X a.payload a.chain_id ≡ hash)

  fuzz_run_records :
      (inputs : List FuzzInput) (seen after : Hashes)
      → fuzz_run X seen inputs ≡ ok after
      → ((a : FuzzInput)
          → Memᴰ a inputs
          → get after (signature_msg X a.payload a.chain_id) ≡ some a)
        × ((key : B256) (a : FuzzInput) → get seen key ≡ some a → get after key ≡ some a)
  unfolding fuzz_run fuzz_collision
  fuzz_run_records [] seen after h =
      let same : seen ≡ after = ok_unique refl h in
      (λ a member. elim member [ ], λ key a stored. rw (← same) stored)
  fuzz_run_records (input ∷ inputs) seen after h =
      let hash = signature_msg X input.payload input.chain_id in
      bind_ok (check_or_insert (get seen hash) hash input seen) _ h λ next e h₁.
        let (own, kept) = check_or_insert_sound (get seen hash) hash input seen next refl e in
        let (others, onward) = fuzz_run_records inputs next after h₁ in
        (
          λ a member. elim member [
            | head same ↦ rw same (onward hash input own)
            | tail below ↦ others a below
          ],
          λ key a stored. onward key a (kept key a stored),
        )

  Stored-insert :
      (all : List FuzzInput) (seen : Hashes) (input : FuzzInput)
      → Stored all seen
      → Memᴰ input all
      → Stored all ((signature_msg X input.payload input.chain_id, input) ∷ seen)
  unfolding get
  Stored-insert all seen input stored member key a e =
      elim (Bool-cases (signature_msg X input.payload input.chain_id == key)) [
        | inl same ↦
            let found : some input ≡ some a = rw same at e in
            let input_is : input ≡ a = cc in
            (rw (← input_is) member, rw (← input_is) (ground arith))
        | inr differs ↦ stored key a (rw differs at e)
      ]

  fuzz_run_passes_on :
      (all inputs : List FuzzInput) (seen : Hashes)
      → Unique all
      → Stored all seen
      → ((a : FuzzInput) → Memᴰ a inputs → Memᴰ a all)
      → (after : Hashes) × (fuzz_run X seen inputs ≡ ok after) × Stored all after
  unfolding fuzz_run fuzz_collision
  fuzz_run_passes_on all [] seen unique stored within = (seen, refl, stored)
  fuzz_run_passes_on all (input ∷ inputs) seen unique stored within =
      let hash = signature_msg X input.payload input.chain_id in
      let member = within input (head refl) in
      let (next, e, how) =
        check_or_insert_complete (get seen hash) hash input seen (λ existing found.
          let (known, message) = stored hash existing found in
          unique existing input known member message) in
      let next_stored : Stored all next = elim how [
        | inl same ↦ rw same stored
        | inr same ↦ rw same (Stored-insert all seen input stored member)
      ] in
      let (after, run, end) =
        fuzz_run_passes_on all inputs next unique next_stored (λ a m. within a (tail m)) in
      (after, rw (e) run, end)

  -- From no hashes the target passes on a sequence of inputs exactly where those that give the same
  -- message to sign are the same.
  pub fuzz_run_iff :
      (inputs : List FuzzInput)
      → ((seen : Hashes) × (fuzz_run X [] inputs ≡ ok seen)) ↔ Unique inputs
  unfolding get
  fuzz_run_iff inputs = (
    λ (seen, run) a b here there same.
        let (recorded, _) = fuzz_run_records inputs [] seen run in
        let one = recorded a here in
        let two = recorded b there in
        let both : some a ≡ some b = sym one ∙ ap (get seen) same ∙ two in cc,
    λ unique.
        let (seen, run, _) =
          fuzz_run_passes_on inputs inputs [] unique (λ hash a e. absurd (cc)) (λ a m. m) in
        (seen, run),
  )

  -- Keccak gives words, and collides neither on the payloads of the inputs nor on their 96-byte
  -- messages; chain identifiers have 64 bits.
  pub record KeccakSeparates (inputs : List FuzzInput) : Type 0 where
    pub words : (a : FuzzInput) → Memᴰ a inputs → X.keccak256 a.payload < 2 ^ 256
    pub payloads :
        (a b : FuzzInput)
        → Memᴰ a inputs
        → Memᴰ b inputs
        → X.keccak256 a.payload ≡ X.keccak256 b.payload
        → a.payload ≡ b.payload
    pub messages :
        (a b : FuzzInput)
        → Memᴰ a inputs
        → Memᴰ b inputs
        → X.keccak256 (signing_data (X.keccak256 a.payload) a.chain_id)
          ≡ X.keccak256 (signing_data (X.keccak256 b.payload) b.chain_id)
        → signing_data (X.keccak256 a.payload) a.chain_id
          ≡ signing_data (X.keccak256 b.payload) b.chain_id
    pub chain_ids : (a : FuzzInput) → Memᴰ a inputs → a.chain_id < 2 ^ 64

  -- Where keccak collides neither on the payloads nor on the messages of a sequence of inputs, and
  -- chain identifiers have 64 bits, the target passes on all of it, and has stored each input under
  -- its own message.
  pub fuzz_run_passes :
      (inputs : List FuzzInput)
      → KeccakSeparates inputs
      → (seen : Hashes) × (fuzz_run X [] inputs ≡ ok seen)
        × ((a : FuzzInput)
            → Memᴰ a inputs
            → get seen (signature_msg X a.payload a.chain_id) ≡ some a)
  fuzz_run_passes inputs keccak =
      let (seen, run) = (fuzz_run_iff inputs).1 (λ a b here there same.
        let (payloads, chains) =
          signature_msg-injective X a.payload b.payload a.chain_id b.chain_id (keccak.words a here)
            (keccak.words b there) (keccak.payloads a b here there) (keccak.messages a b here there)
            (keccak.chain_ids a here) (keccak.chain_ids b there) same in
        cc) in
      (seen, run, (fuzz_run_records inputs [] seen run).0)
