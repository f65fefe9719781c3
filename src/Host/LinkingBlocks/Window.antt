-- ===== src/Host/LinkingBlocks/Window.antt =====
-- What the window holds.
use malda_lending_fuzz.Prelude.{
  ℕ, zero, suc, ◌+◌, ◌-◌, ◌≤◌, ◌<◌, ◌^◌, ◌≡◌, refl, ap, ◌∙◌, arith, String, List, [], ◌∷◌, length,
  ok,
}
use malda_lending_fuzz.Bytes.{B256, add_uint}
use malda_lending_fuzz.Externals.{Externals}
use malda_lending_fuzz.Validators.ChainLength.{required_depth, validate_chain_length}
use malda_lending_fuzz.Validators.ChainLength.Linked.{Linked, validate_chain_length_iff}
use malda_lending_fuzz.Host.Chains.Agreement.{get_reorg_protection_depth_lem}
use malda_lending_fuzz.Bytes.Laws.{sub_uint-eq-ok, add_uint-eq-ok}
use malda_lending_fuzz.Host.Network.{Network}
use malda_lending_fuzz.Host.LinkingBlocks.{
  numbers_from, range_inclusive, join, fetch_header, join_headers, get_linking_blocks,
}

pub required_depth_positive : (chain_id depth : ℕ) → required_depth chain_id ≡ ok depth → 0 < depth
unfolding required_depth
required_depth_positive chain_id depth known = ground arith

module _ {X : Externals} (N : Network X) (rpc_url : String) where
  -- The chain that an endpoint serves up to a block: it gives block n + 1, whose hash and, as its
  -- parent, the hash of block n are those of `hash_at`.
  abbrev pub Serves : (ℕ → X.Header) → (ℕ → B256) → ℕ → Type 0
  Serves header_at hash_at top =
      (n : ℕ)
      → n < top
      → (fetch_header N rpc_url (suc n) ≡ ok (header_at (suc n)))
        × (X.parent_hash (header_at (suc n)) ≡ hash_at n)
        × (X.hash_slow (header_at (suc n)) ≡ hash_at (suc n))

  pub Serves-hash_slow :
      (header_at : ℕ → X.Header) (hash_at : ℕ → B256) (top : ℕ)
      → Serves header_at hash_at top
      → 0 < top
      → X.hash_slow (header_at top) ≡ hash_at top
  Serves-hash_slow header_at hash_at zero serves positive = absurd (omega arith)
  Serves-hash_slow header_at hash_at (suc n) serves positive = (serves n (omega arith)).2

  join_headers-Linked :
      (header_at : ℕ → X.Header) (hash_at : ℕ → B256) (top : ℕ)
      → Serves header_at hash_at top
      → (count n : ℕ) → n + count ≤ top
      → (headers : List X.Header) × (join_headers N rpc_url (numbers_from (suc n) count)
          ≡ ok headers)
        × Linked X (hash_at n) headers (hash_at (n + count))
        × (length headers ≡ count)
  unfolding join_headers numbers_from join
  join_headers-Linked header_at hash_at top serves zero n within =
      ([], refl, ap hash_at (omega arith), refl)
  join_headers-Linked header_at hash_at top serves (suc count) n within =
      let (fetched, parent, own) = serves n (omega arith) in
      let (rest, joined, linked, long) =
        join_headers-Linked header_at hash_at top serves count (suc n) (omega arith) in
      let shift : hash_at (suc n + count) ≡ hash_at (n + suc count) = ap hash_at (omega arith) in
      (
        header_at (suc n) ∷ rest,
        rw (fetched, joined) refl,
        (parent, rw (own, ← shift) linked),
        ap suc long,
      )

  pub get_linking_blocks-join_headers :
      (chain_id depth current_block : ℕ)
      → required_depth chain_id ≡ ok depth
      → depth ≤ current_block
      → current_block < 2 ^ 64
      → get_linking_blocks N chain_id rpc_url current_block
        ≡ join_headers N rpc_url (numbers_from (suc (current_block - depth)) depth)
  unfolding get_linking_blocks range_inclusive
  get_linking_blocks-join_headers chain_id depth current_block known deep small =
      let known_depth = (get_reorg_protection_depth_lem chain_id).0 ∙ known in
      let no_carry : add_uint X.overflow_checks 64 (current_block - depth) 1
          ≡ ok (suc (current_block - depth)) =
        add_uint-eq-ok X.overflow_checks 64 (current_block - depth) 1
          (omega (arith, required_depth_positive chain_id depth known))
        ∙ ap ok (omega arith) in
      let size : suc current_block - suc (current_block - depth) ≡ depth = omega arith in
      rw (known_depth, sub_uint-eq-ok X.overflow_checks 64 current_block depth deep, no_carry, size)
        refl

  -- From an endpoint that serves a hash-linked chain up to a block, whose number is below 2^64 and no
  -- lower than the chain's reorg protection depth, the host fetches exactly as many headers as the
  -- guest asks for, and the guest's check leads over them from the block that many lower to that
  -- block.
  pub get_linking_blocks-validate_chain_length :
      (header_at : ℕ → X.Header) (hash_at : ℕ → B256) (chain_id depth current_block : ℕ)
      → Serves header_at hash_at current_block
      → required_depth chain_id ≡ ok depth
      → depth ≤ current_block
      → current_block < 2 ^ 64
      → (headers : List X.Header) × (get_linking_blocks N chain_id rpc_url current_block
          ≡ ok headers)
        × (length headers ≡ depth)
        × (validate_chain_length X chain_id
              (hash_at (current_block - depth))
              headers
              (hash_at current_block)
            ≡ ok tt)
  get_linking_blocks-validate_chain_length header_at hash_at chain_id depth current_block serves
        known deep small =
      let (headers, joined, linked, long) =
        join_headers-Linked header_at hash_at current_block serves depth (current_block - depth)
          (omega arith) in
      let same : current_block - depth + depth ≡ current_block = omega arith in
      (
        headers,
        get_linking_blocks-join_headers chain_id depth current_block known deep small ∙ joined,
        long,
        (validate_chain_length_iff X chain_id (hash_at (current_block - depth)) headers
              (hash_at current_block)).1
            ((depth, known, omega (arith, long)), rw (← ap hash_at same) linked),
      )
