-- ===== src/Constants.antt =====
-- The keys that the program writes out: jupiter-core/src/constants.rs, the program ids of
-- jupiter-core/src/amms/spl_token_swap_amm.rs, and those of jupiter/src/lib.rs. Each is the
-- number that the base58 text in the source spells. Last, the address of jupiter-core/src/config.rs.
use exponent_jupiter_amm_imp.Prelude.{String, List, [], ◌∷◌}
use exponent_jupiter_amm_imp.Solana.{Pubkey}

-- EPjFWdd5AufqSSqeM2qN1xzybapC8G4wEGGkZwyTDt1v
abbrev pub usdc_mint : Pubkey
usdc_mint = 0xc6fa7af3bedbad3a3d65f36aabc97431b1bbe4c2d2f6e0e47ca60203452f5d61

-- Es9vMFrzaCERmJfrF4H2FYD4KCoNkY11McCe8BenwNYB
abbrev pub usdt_mint : Pubkey
usdt_mint = 0xce010e60afedb22717bd63192f54145a3f965a33bb82d2c7029eb2ce1e208264

-- J1toso1uCk3RLmjorhTtrVwY9HJ7X8V9yYac6Y7kGCPn
abbrev pub jitosol_mint : Pubkey
jitosol_mint = 0xfcd141e9832caf10ad917495ca0f271b5b293cd47027ea737007ed40eb39a0bd

-- bSo13r4TkiE4KumL71LsHTPpL2euBYLFx6h9HP3piy1
abbrev pub bsol_mint : Pubkey
bsol_mint = 0x08d2e970f93c7b3d50191e611acd93aa80a546b45ec965e18b0587155699c8ac

-- JUP6LkbZbjS1jKKwapdHNy74zcZ3tLUZoi5QNyVTaV4, the address of jupiter/idls
abbrev pub jupiter_id : Pubkey
jupiter_id = 0x0479d55bf231c06eee74c56ece681507fdb1b2dea3f48e5102b1cda256bc138f

-- DjVE6JNiYqPL2QXyCUUh8rNjHrbz9hXHNYt99MQ59qw1
abbrev pub orca_v1 : Pubkey
orca_v1 = 0xbd2e8d50bc09278e5e14bf65629a4896f5819ecac40f50c84b757847ba9464dc

-- 9W959DqEETiGZocYWCQPaJ6sBmUzgfxXfqGeTEdp3aQP
abbrev pub orca_v2 : Pubkey
orca_v2 = 0x7e54771a57a6f14ca9e402d54aee45f7378aca365c7b169a7ec83f5182b298f0

-- Dooar9JkhdZ7J3LHN3A7YCuoGRUggXhQaG4kijfLGU2j
abbrev pub stepn : Pubkey
stepn = 0xbe49a1eeb81bf889c158fd8b7496ff9141d4aa433eae3948d0d8488f78951b78

-- SSwapUtytfBdBn1b9NUGG6foMVPtcWgpRU32HToDUZr
abbrev pub saros : Pubkey
saros = 0x0684da16a689c2c3896a8411715be9432eec1ca71a1ce2087286c67677cf65bd

-- PSwapMdSai8tjrEXcxFeQth87xC4rRsa4VA5mhGhXkP
abbrev pub penguin : Pubkey
penguin = 0x05c01c06e46f4190c7755e2c25ed0cd6b204441e1d128b79df6118292787613c

-- The token ledgers of `find_jupiter_token_ledger`, in its order:
-- HtncvpUBGhSrs48KtC58ntJcTDw53sn78Lpq71zVwiez, HxTk98CmBcxmtkrBWqRszYxrnDpqAsbitQBc2QjVBG3j,
-- CnUPHtfUVw3D2s4FB8H6QBuLwoes8YxauVgDtFybm7rz and FhLPkpFmszHtSyyayj7KsXNZeBTqfQbUPmvgWAyJHBXh.
abbrev pub token_ledgers : List Pubkey
token_ledgers =
    0xfaff31b44953a2154e84e04876514eb4f89556f8b1c86fa1bb9f45fba9059f2f
    ∷ 0xfbf02cb440b4c19e3f7b9c64615fcb03993ff3fb1438091cdea5a40b325daa8a
    ∷ 0xaf16a7fa21a59137126529706d7635f5d24028b506e8ba3201e86b3936b0012b
    ∷ 0xda58c6bc93b0c827ee8389389fd8a8c78fe46468a631adc4dc77014e318827ac ∷ []

abbrev rpc_url : String
rpc_url = "https://solana-api.projectserum.com"
