-- ===== src/Lib.antt =====
-- The browser client of open-beanie, beanie_api/public/scripts: what decides where money goes and
-- what is shown as received, modelled over JavaScript strings as lists of UTF-16 code units.
--
-- Base holds what the parts share: lists over the native numbers, bits, numerals, strings, the
-- values of JSON and results. Positional numerals carry base58, hex, shortvec and byte orders.
--
-- Solana models solana.js. Solana.Base58: base58Decode, base58Encode, pubkeyBytes. Solana.Wire:
-- shortvec, u64le, unsignedTransaction, parseTransaction. Solana.Transfer:
-- buildTransferCheckedMessage. Solana.Curve: modPow, isOnCurve. Solana.Program:
-- findProgramAddress, usdcAta, receiverPdas, receiverFromAnnouncedEvent. Bytes are numbers below
-- 256; thrown errors are values; SHA-256 is the browser's and a parameter of the definitions.
--
-- Chains models chains.js: the table of chains, and in Chains.Ready the tests of what a chain
-- offers. Identity models identity.js over both: canonical addresses, merchant identities, the
-- CCTP route; Identity.Keccak is its keccak256.
--
-- Store models store.js over Chains and Identity. Storage is the four keys of `localStorage`; a
-- write is refused by a parameter, `fits`, and then changes nothing. recordScan is record_scan.
-- Store.Lanes has the lanes, as values of JSON, and Store.Backup what importBackup makes of a
-- file.
--
-- Onchain models onchain.js: rpc, which chooses between the proxy and the public node,
-- predictReceiver, and in Onchain.Deposits scanDeposits with the deposits of each kind of chain. A
-- node is a record of answers, Node; Net holds the two sources. What is not read from an answer by
-- the code has no field.
--
-- Watcher models watcher.js over Store and Onchain: scanReceiver and scanChain. The answers of the
-- network and the readings of the clock are given for each round, so they may change between any
-- two windows; other tabs are not modelled.
--
-- Lane models computeReceivers and verifyLane of lane.js over all of these; Lane.Resolve its
-- resolveStealthConfig, Lane.Create its createLane with the record that is stored, Lane.Record,
-- and Lane.Discover discoverSolanaReceiver of onchain.js. Lane.Passkey derives the account of a
-- private lane, with Stealth, from what the passkey makes of a salt; that, the tokens that it
-- confirms, the answers of the API and the owners of accounts on Solana are parameters. Lane.Owned
-- and Lane.Paid have what the check of a lane finds on Solana and of its recipient.
--
-- Stealth models stealth.core.js over Chains.Config, which is stealthConfigFor of chains.js, and
-- Onchain.Accounts, which has the balances, nonces, existence of contracts and stealth accounts of
-- onchain.js: lane ids, salts and the derivation of an account on each kind of chain. HKDF, the
-- curves and the address hash of Starknet are the record Curves.
--
-- Claim models the builders of stealth.claim.js: Claim.Message is buildSolanaMessage,
-- Claim.Solana, Claim.Evm and Claim.Starknet build the claims. Hashes of typed data and of
-- transactions, and signatures, are parameters. A balance is a natural number, as tokenBalance
-- reads none below 0.
--
-- Gasless models gasless.js: signSolanaTransfer over Solana and Onchain, Gasless.Evm
-- signEvmTransfer, Gasless.Starknet signStarknetTransfer with the detection of the SNIP-9 version,
-- over the typed data of Gasless.Outside, and Gasless.Settlement awaitSolanaSettlement. The
-- wallets, starknet.js, and what the network answers in each poll are parameters. The keeper of
-- Solana is the placeholder of the settings.
--
-- ClaimPage models stealth.js over Claim, Lane and Stealth: the claim, and in ClaimPage.Steps the
-- page as a state machine, where answers come in any order. Pay models laneShareUrl of lane.js and
-- parseLink of pay.js, and Pay.Checkout the payment of pay.js over Amounts and Gasless.
--
-- Api models api.js: request, with what it throws where the body of an answer cannot be read, and
-- the bodies of createLane and submitPayment.
--
-- Amounts models parseDecimalToRawUnits and formatUsdc of ui.js, Display its escapeHtml, short and
-- describeError.
--
-- Fuel: shortvec takes one round for each 7 bits and has n + 1; mod_pow halves its exponent e and
-- has e rounds; low_digits divides by the base and has as many rounds as its number. Each round
-- leaves a smaller number, so the fuel does not run out before the number is 0. The loops on pages
-- of signatures (10), on windows (8) and on polls (40 and 5) have the bounds of the source. The
-- search for a Solana receiver has as many rounds as start before its deadline, a number that is
-- given. The loop on pages of Starknet events goes on for as long as a node gives tokens;
-- `max_pages` bounds it, and out_of_fuel is an error that the theorems on results do not count as
-- a success.
--
-- Not modelled: the DOM with what is drawn on the pages, the passkey's session of passkey.js,
-- network calls, WebAuthn and WebCrypto, base64, the bundled starknet.js, and the server, keepers
-- and contracts, which are in other languages.
pub mod Base
pub mod Solana
pub mod Chains
pub mod Identity
pub mod Store
pub mod Onchain
pub mod Watcher
pub mod Amounts
pub mod Lane
pub mod Gasless
pub mod Stealth
pub mod Claim
pub mod ClaimPage
pub mod Pay
pub mod Api
pub mod Display
pub mod Tests
