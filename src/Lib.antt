-- ===== src/Lib.antt =====
-- The Rust program of this repository: the implementation of one pool for Jupiter's aggregator
-- (SPL Token Swap), the builders of swap transactions, and the harness that tests a pool.
--
-- The parts and how they interact. A loader makes a pool from an account of a known program. The
-- pool answers the trait `Amm`: it names the accounts that it reads, updates its reserves from
-- them, quotes an amount and names the accounts of a swap. The routes list the ordered pairs of a
-- pool's mints. The transaction builders turn a route plan into accounts and bytes for the
-- program `jupiter`, whose interface file is jupiter/idls/jupiter_aggregator.json. The command
-- line takes a snapshot of a pool. The harness updates a pool from the chain or from stored
-- accounts, makes the token accounts of a test, looks for an amount that can be quoted, stores
-- the accounts of a pool in files, sends a swap of it to the program on a test bank and compares
-- the user's balances with the quote.
--
-- Files and sources:
--   Prelude and Prelude/*    helpers: tests, lists, `Result`, maps, methods with a state
--   Solana, Amm, Crates      data and parameters from `solana_sdk`, `jupiter_amm_interface` and others
--   Constants                keys of jupiter-core/src/constants.rs and of the pool, the jupiter crate
--                            and the harness
--   Math                     jupiter-core/src/math
--   TokenSwapMetas           jupiter-core/src/amms/account_meta_from_token_swap.rs
--   SplTokenSwap             jupiter-core/src/amms/spl_token_swap_amm.rs: `Pool` (state,
--                            `from_keyed_account`, `clone`, getters), `Update`, `Quoting`, `Metas`,
--                            `Implementation` (the trait's record)
--   Loader                   jupiter-core/src/amms/loader.rs
--   Route                    jupiter-core/src/route.rs
--   Jupiter                  jupiter/src/lib.rs and the interface file: `Authority`, `Instructions`,
--                            `Accounts`, and `Wire` for the bytes of an instruction
--   SwapTransaction          jupiter-core/src/build_swap_transaction.rs
--   Harness                  jupiter-core/src/amms/test_harness.rs: `Amounts`, `Precise`,
--                            `QuoteSearch`, `Bank`, `Simulation`, `Verdict`, `SimulatedSwap`,
--                            `Setup`, and for the snapshots `Client` (the node), `Directories`
--                            (their names), `Snapshot` (the files) and `TakeSnapshot`;
--                            `Loading` (`load_program_test`), `OutAmount`, `TestRpc`
--   Cli                      jupiter-core/src/main.rs
--   TestAmms                 jupiter-core/tests/test_amms.rs
--   Examples                 concrete libraries, a pool, and runs
--
-- How code and model correspond. A function of the model has the name of the Rust function, and
-- its arguments in that order, `self` last where it is a state that is passed on. A public key is
-- the number that its 32 bytes spell. Integers are natural numbers, and the model writes out
-- where the source checks, converts or wraps them. `anyhow::Result` is `Result` with three
-- outcomes: a value, an error, or a panic, since `unwrap`, an index out of range and a checked
-- overflow are no errors that `?` passes on; `overflow_checks` is the build profile's. A method
-- with `&mut self` gives back the state with its result. A `HashMap` is an association list. An
-- `AccountMeta` is written by which of its two constructors made it.
--
-- Third-party code is a parameter: a record `Crates` of the functions that the program calls and,
-- for the code that anchor generates from the interface file, a record `Anchor`. What a theorem
-- needs of them is a record of laws among its arguments, such as `SwapLaws` (a swap takes no more
-- than is offered and pays no more than the pool has), `AccountDataLaws` and `ItertoolsLaws`.
--
-- Fuel: the loop of `find_quote` has fuel for twelve tests of its condition, more than its own
-- counter allows, and out of fuel it has no result; the rest is structural recursion.
--
-- The harness runs its transactions on a bank, the record `Bank`, whose state its methods pass
-- on.
--
-- `load_program_test` starts it from the accounts of a snapshot; the key of a user is an argument
-- where the source makes a new key pair, and the tests take them from a sequence.
--
-- The files of a snapshot are the state of a directory, by address; their texts are written and
-- read by functions of the record `Formats`. All snapshots together are a function from the names
-- of their directories. Where a path leads, and what a pattern of `glob` gives, are functions of
-- `Formats` too, since the source puts an option into both as it is: a path may lead nowhere, and
-- a pattern may be none. A name is plain if it has no character that either gives a meaning and
-- does not start with a dot. What is asked of a node is the record `Remote`, and a node that
-- answers from a chain is one for which `Answers` holds.
--
-- Not modelled: the client of the node but for its answers, the parsing of command lines by
-- `clap`, printing, logging and the measurement of time, and the macros that generate tests.
pub mod Prelude
pub mod Solana
pub mod Constants
pub mod Crates
pub mod Math
pub mod Amm
pub mod TokenSwapMetas
pub mod SplTokenSwap
pub mod Loader
pub mod Route
pub mod Jupiter
pub mod SwapTransaction
pub mod Harness
pub mod Cli
pub mod TestAmms
mod Examples
