-- ===== src/Validators/ChainLength/Linked.antt =====
-- What an accepted chain of linking blocks is.
use malda_lending_fuzz.Prelude.{
  ℕ, ◌≤◌, ◌≡◌, ◌≢◌, ◌↔◌, ◌⊎◌, inl, inr, refl, ap, arith, Bool-cases, ==_iff, map, List, [], ◌∷◌,
  ◌++◌, length, ◌==◌, ok, err, bind_ok, assert, leb, ltb, if◌then◌else◌, chain_too_short,
  blocks_not_hashlinked, last_hash_mismatch,
}
use malda_lending_fuzz.Bytes.{B256}
use malda_lending_fuzz.Externals.{Externals}
use malda_lending_fuzz.Validators.ChainLength.{required_depth, check_links, validate_chain_length}
use mathlib.Core.List.{Memᴰ}
use mathlib.Core.List.Memᴰ.{head, tail}

module _ (X : Externals) where
  -- The blocks lead from the block with the first hash to the one with the last: each names the
  -- block before it as its parent.
  abbrev pub Linked : B256 → List X.Header → B256 → Type 0
  Linked first [] last = first ≡ last
  Linked first (header ∷ blocks) last =
      (X.parent_hash header ≡ first) × Linked (X.hash_slow header) blocks last

  abbrev pub IsProtected : ℕ → List X.Header → Type 0
  IsProtected chain_id blocks =
      (depth : ℕ) × (required_depth chain_id ≡ ok depth) × (depth ≤ length blocks)

  check_links_iff :
      (first last : B256) (blocks : List X.Header)
      → (check_links X first blocks ≡ ok last) ↔ Linked first blocks last
  unfolding check_links
  check_links_iff first last [] = (λ h. cc, λ h. ap ok h)
  check_links_iff first last (header ∷ blocks) =
      ground (arith, check_links_iff (X.hash_slow header) last blocks)

  -- `validate_chain_length` accepts exactly the chains at least as long as the chain's reorg
  -- protection depth and lead, link by link, from the historical hash to the current hash.
  pub validate_chain_length_iff :
      (chain_id : ℕ) (historical_hash : B256) (linking_blocks : List X.Header) (current_hash : B256)
      → (validate_chain_length X chain_id historical_hash linking_blocks current_hash ≡ ok tt)
        ↔ (IsProtected chain_id linking_blocks × Linked historical_hash linking_blocks current_hash)
  unfolding validate_chain_length
  validate_chain_length_iff chain_id historical_hash linking_blocks current_hash = (
    accepted,
    λ (p, l). ground (arith, check_links_iff historical_hash current_hash linking_blocks),
  )
    where
      accepted :
          validate_chain_length X chain_id historical_hash linking_blocks current_hash ≡ ok tt
          → IsProtected chain_id linking_blocks × Linked historical_hash linking_blocks current_hash
      accepted h = bind_ok (required_depth chain_id) _ h λ depth known h₁.
          bind_ok (assert (leb depth (length linking_blocks)) chain_too_short) _ h₁ λ _ long h₂.
            bind_ok (check_links X historical_hash linking_blocks) _ h₂ λ last links h₃. (
              (depth, known, ground arith),
              (check_links_iff historical_hash current_hash linking_blocks).0 (ground arith),
            )

  check_links-broken :
      (first middle : B256) (front : List X.Header) (header : X.Header) (back : List X.Header)
      → Linked first front middle
      → X.parent_hash header ≢ middle
      → check_links X first (front ++ header ∷ back) ≡ err blocks_not_hashlinked
  unfolding check_links
  check_links-broken first middle [] header back e broken = ground arith
  check_links-broken first middle (next ∷ front) header back (parent, l) broken =
      ground (arith, check_links-broken (X.hash_slow next) middle front header back l)

  -- On a supported chain, with enough blocks of which the first ones are linked from the historical
  -- hash up to a block whose parent hash is not the hash before it, `validate_chain_length` panics
  -- for the broken link, whatever stands behind that block.
  pub validate_chain_length_broken :
      (chain_id depth : ℕ) (historical_hash middle current_hash : B256) (front : List X.Header)
      (header : X.Header) (back : List X.Header)
      → required_depth chain_id ≡ ok depth
      → depth ≤ length (front ++ header ∷ back)
      → Linked historical_hash front middle
      → X.parent_hash header ≢ middle
      → validate_chain_length X chain_id historical_hash (front ++ header ∷ back) current_hash
        ≡ err blocks_not_hashlinked
  unfolding validate_chain_length
  validate_chain_length_broken chain_id depth historical_hash middle current_hash front header back
        known long links broken =
      ground (arith, check_links-broken historical_hash middle front header back links broken)

  -- On a supported chain, with blocks linked from the historical hash to some last hash,
  -- `validate_chain_length` panics for the length where there are fewer blocks than the depth,
  -- otherwise accepts where the last hash is the current hash, and panics for the mismatch where
  -- it is not.
  pub validate_chain_length-Linked :
      (chain_id depth : ℕ) (historical_hash last current_hash : B256) (blocks : List X.Header)
      → required_depth chain_id ≡ ok depth
      → Linked historical_hash blocks last
      → validate_chain_length X chain_id historical_hash blocks current_hash ≡ (
          if ltb (length blocks) depth
          then err chain_too_short
          else if last == current_hash
          then ok tt
          else err last_hash_mismatch)
  unfolding validate_chain_length
  validate_chain_length-Linked chain_id depth historical_hash last current_hash blocks known links =
      ground (arith, check_links_iff historical_hash last blocks)

  -- Two different headers with one hash.
  pub record Collision (blocks₁ blocks₂ : List X.Header) : Type 0 where
    pub header₁ : X.Header
    pub header₂ : X.Header
    pub within₁ : Memᴰ header₁ blocks₁
    pub within₂ : Memᴰ header₂ blocks₂
    pub same_hash : X.hash_slow header₁ ≡ X.hash_slow header₂
    pub different : X.parent_hash header₁ ≢ X.parent_hash header₂

  Collision-tail :
      (a b : X.Header) (blocks₁ blocks₂ : List X.Header)
      → Collision blocks₁ blocks₂
      → Collision (a ∷ blocks₁) (b ∷ blocks₂)
  Collision-tail a b blocks₁ blocks₂ c = record {
    header₁ = c.header₁;
    header₂ = c.header₂;
    within₁ = tail c.within₁;
    within₂ = tail c.within₂;
    same_hash = c.same_hash;
    different = c.different;
  }

  same_chain :
      (last : B256) (blocks₁ blocks₂ : List X.Header) (first₁ first₂ : B256)
      → length blocks₁ ≡ length blocks₂
      → Linked first₁ blocks₁ last
      → Linked first₂ blocks₂ last
      → ((first₁ ≡ first₂) × (map X.hash_slow blocks₁ ≡ map X.hash_slow blocks₂))
        ⊎ Collision blocks₁ blocks₂
  same_chain last [] [] first₁ first₂ same l₁ l₂ = inl (cc, refl)
  same_chain last [] (b ∷ blocks₂) first₁ first₂ same l₁ l₂ = absurd (omega arith)
  same_chain last (a ∷ blocks₁) [] first₁ first₂ same l₁ l₂ = absurd (omega arith)
  same_chain last (a ∷ blocks₁) (b ∷ blocks₂) first₁ first₂ same (p₁, l₁) (p₂, l₂) =
      elim (same_chain last blocks₁ blocks₂ (X.hash_slow a) (X.hash_slow b) (omega arith) l₁ l₂) [
        | inr c ↦ inr (Collision-tail a b blocks₁ blocks₂ c)
        | inl (hashes, rest) ↦ elim (Bool-cases (X.parent_hash a == X.parent_hash b)) [
          | inl e ↦ let parents = (==_iff _ _).0 e in inl (cc, cc)
          | inr e ↦ inr (record {
            header₁ = a;
            header₂ = b;
            within₁ = head refl;
            within₂ = head refl;
            same_hash = hashes;
            different = λ parents. ground arith;
          })
        ]
      ]

  -- Two accepted chains of one length that end at the same validated hash start at the same historical
  -- hash and have the same hashes block by block, unless a header of the one and a header of the other
  -- have one hash and different parents: to put another block in the historical block's place takes a
  -- collision of the block hash.
  pub historical_hash_unique :
      (chain_id : ℕ) (hash₁ hash₂ current_hash : B256) (blocks₁ blocks₂ : List X.Header)
      → length blocks₁ ≡ length blocks₂
      → validate_chain_length X chain_id hash₁ blocks₁ current_hash ≡ ok tt
      → validate_chain_length X chain_id hash₂ blocks₂ current_hash ≡ ok tt
      → ((hash₁ ≡ hash₂) × (map X.hash_slow blocks₁ ≡ map X.hash_slow blocks₂))
        ⊎ Collision blocks₁ blocks₂
  historical_hash_unique chain_id hash₁ hash₂ current_hash blocks₁ blocks₂ same h₁ h₂ =
      same_chain current_hash blocks₁ blocks₂ hash₁ hash₂ same
        ((validate_chain_length_iff chain_id hash₁ blocks₁ current_hash).0 h₁).1
        ((validate_chain_length_iff chain_id hash₂ blocks₂ current_hash).0 h₂).1
