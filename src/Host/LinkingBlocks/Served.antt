-- ===== src/Host/LinkingBlocks/Served.antt =====
-- The headers themselves that the window holds.
use malda_lending_fuzz.Prelude.{
  ℕ, zero, suc, ◌+◌, ◌-◌, ◌≤◌, ◌<◌, ◌^◌, ◌≡◌, refl, ap, ◌∙◌, arith, String, List, [], ◌∷◌, ok,
  ok_unique,
}
use malda_lending_fuzz.Bytes.{B256}
use malda_lending_fuzz.Externals.{Externals}
use malda_lending_fuzz.Validators.ChainLength.{required_depth, validate_chain_length}
use malda_lending_fuzz.Validators.Params.{header_to_validate}
use malda_lending_fuzz.Host.Network.{Network}
use malda_lending_fuzz.Host.LinkingBlocks.{numbers_from, join, join_headers, get_linking_blocks}
use malda_lending_fuzz.Host.LinkingBlocks.Window.{
  Serves, required_depth_positive, get_linking_blocks-join_headers,
  get_linking_blocks-validate_chain_length,
}

module _ {X : Externals} (N : Network X) (rpc_url : String) (header_at : ℕ → X.Header) where
  -- The headers of the `count` blocks behind block `n`.
  abbrev pub served : ℕ → ℕ → List X.Header
  served n zero = []
  served n (suc count) = header_at (suc n) ∷ served (suc n) count

  join_headers-served :
      (hash_at : ℕ → B256) (top : ℕ)
      → Serves N rpc_url header_at hash_at top
      → (count n : ℕ) → n + count ≤ top
      → join_headers N rpc_url (numbers_from (suc n) count) ≡ ok (served n count)
  unfolding join_headers numbers_from join
  join_headers-served hash_at top serves zero n within = refl
  join_headers-served hash_at top serves (suc count) n within =
      let (fetched, _, _) = serves n (omega arith) in
      rw (fetched, join_headers-served hash_at top serves count (suc n) (omega arith)) refl

  header_to_validate-served :
      (count n : ℕ) (env_header : X.Header)
      → header_to_validate X (served n (suc count)) env_header ≡ header_at (n + suc count)
  unfolding header_to_validate
  header_to_validate-served zero n env_header = ap header_at (omega arith)
  header_to_validate-served (suc count) n env_header =
      header_to_validate-served count (suc n) (header_at (suc n)) ∙ ap header_at (omega arith)

  -- The window is those headers, its last one is that of the block, and the guest's check leads over
  -- them to the block's hash.
  pub get_linking_blocks-served :
      (hash_at : ℕ → B256) (chain_id depth current_block : ℕ) (env_header : X.Header)
      → Serves N rpc_url header_at hash_at current_block
      → required_depth chain_id ≡ ok depth
      → depth ≤ current_block
      → current_block < 2 ^ 64
      → (get_linking_blocks N chain_id rpc_url current_block
          ≡ ok (served (current_block - depth) depth))
        × (header_to_validate X (served (current_block - depth) depth) env_header
            ≡ header_at current_block)
        × (validate_chain_length X chain_id
              (hash_at (current_block - depth))
              (served (current_block - depth) depth)
              (hash_at current_block)
            ≡ ok tt)
  get_linking_blocks-served hash_at chain_id depth current_block env_header serves known deep
        small =
      let before = current_block - depth in
      let fetched =
        get_linking_blocks-join_headers N rpc_url chain_id depth current_block known deep small
        ∙ join_headers-served hash_at current_block serves depth before (omega arith) in
      let (headers, got, _, checked) =
        get_linking_blocks-validate_chain_length N rpc_url header_at hash_at chain_id depth
          current_block serves known deep small in
      let same : headers ≡ served before depth = ok_unique got fetched in
      (fetched, last depth (required_depth_positive chain_id depth known) deep, rw same at checked)
    where
      last :
          (d : ℕ)
          → 0 < d
          → d ≤ current_block
          → header_to_validate X (served (current_block - d) d) env_header ≡ header_at current_block
      last zero positive within = absurd (omega arith)
      last (suc d) positive within =
          header_to_validate-served d (current_block - suc d) env_header
          ∙ ap header_at (omega arith)
