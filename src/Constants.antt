-- ===== src/Constants.antt =====
-- The constants of crates/malda_utils/src/constants.rs: chain identifiers, addresses as 160-bit
-- numbers, the signature bound and the reorg protection depths.
use malda_lending_fuzz.Prelude.{ℕ, List, [], ◌∷◌}

abbrev pub multicall : ℕ
multicall = 0xca11bde05977b3631167028862be2a173976ca11

abbrev pub selector_malda_get_proof_data : List ℕ
selector_malda_get_proof_data = 0x07 ∷ 0xd9 ∷ 0x23 ∷ 0xe9 ∷ []

abbrev pub ethereum_chain_id : ℕ
ethereum_chain_id = 1

abbrev pub optimism_chain_id : ℕ
optimism_chain_id = 10

abbrev pub linea_chain_id : ℕ
linea_chain_id = 59144

abbrev pub base_chain_id : ℕ
base_chain_id = 8453

abbrev pub ethereum_sepolia_chain_id : ℕ
ethereum_sepolia_chain_id = 11155111

abbrev pub optimism_sepolia_chain_id : ℕ
optimism_sepolia_chain_id = 11155420

abbrev pub linea_sepolia_chain_id : ℕ
linea_sepolia_chain_id = 59141

abbrev pub base_sepolia_chain_id : ℕ
base_sepolia_chain_id = 84532

abbrev pub optimism_sequencer : ℕ
optimism_sequencer = 0xaaaa45d9549eda09e70937013520214382ffc4a2

abbrev pub base_sequencer : ℕ
base_sequencer = 0xaf6e19be0f9ce7f8afd49a1824851023a8249e8a

abbrev pub linea_sequencer : ℕ
linea_sequencer = 0x8f81e2e3f8b46467523463835f965ffe476e1c9e

abbrev pub optimism_sepolia_sequencer : ℕ
optimism_sepolia_sequencer = 0x57cacbb0d30b01eb2462e5dc940c161aff3230d3

abbrev pub base_sepolia_sequencer : ℕ
base_sepolia_sequencer = 0xb830b99c95ea32300039624cb567d324d4b1d83c

abbrev pub linea_sepolia_sequencer : ℕ
linea_sepolia_sequencer = 0xa27342f1b74c0cfb2cda74bac1628d0c1a9752f2

abbrev pub l1_block_address_opstack : ℕ
l1_block_address_opstack = 0x4200000000000000000000000000000000000015

abbrev pub l1_message_service_linea : ℕ
l1_message_service_linea = 0xd19d4b5d358258f05d7b411e21a1460d11b0876f

abbrev pub l1_message_service_linea_sepolia : ℕ
l1_message_service_linea_sepolia = 0xb218f8a4bc926cf1ca7b3423c154a0d627bdb7e5

abbrev pub secp256k1n_half : ℕ
secp256k1n_half = 0x7fffffffffffffffffffffffffffffff5d576e7357a4501ddfe92f46681b20a0

abbrev pub reorg_protection_depth_optimism : ℕ
reorg_protection_depth_optimism = 2

abbrev pub reorg_protection_depth_base : ℕ
reorg_protection_depth_base = 2

abbrev pub reorg_protection_depth_linea : ℕ
reorg_protection_depth_linea = 2

abbrev pub reorg_protection_depth_ethereum : ℕ
reorg_protection_depth_ethereum = 2

abbrev pub reorg_protection_depth_optimism_sepolia : ℕ
reorg_protection_depth_optimism_sepolia = 2

abbrev pub reorg_protection_depth_base_sepolia : ℕ
reorg_protection_depth_base_sepolia = 2

abbrev pub reorg_protection_depth_linea_sepolia : ℕ
reorg_protection_depth_linea_sepolia = 2

abbrev pub reorg_protection_depth_ethereum_sepolia : ℕ
reorg_protection_depth_ethereum_sepolia = 2

abbrev pub optimism_portal : ℕ
optimism_portal = 0xbeb5fc579115071764c7423a4f12edde41f106ed

abbrev pub optimism_sepolia_portal : ℕ
optimism_sepolia_portal = 0x16fc5058f25648194471939df75cf27a2fdc48bc

abbrev pub base_portal : ℕ
base_portal = 0x49048044d57e1c92a77f79988d21fa8faf74e97e

abbrev pub base_sepolia_portal : ℕ
base_sepolia_portal = 0x49f53e41452c74589e85ca1677426ba426459e85
