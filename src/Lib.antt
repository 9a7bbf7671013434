-- ===== src/Lib.antt =====
-- Res ex Machina: a service that anchors declarations about generated content on a chain, a package
-- that verifies them without the service, and a server that lets an agent make records under limits.
--
-- The parts, with the files of the repository and the modules that model them:
--   * packages/mcp-server/src: config.ts in Mcp/Config, the interface and the two ledgers of ledger/
--     in Mcp/Ledger, Mcp/Ledger/Memory and Mcp/Ledger/Sqlite, tools/write.ts in Mcp/Write,
--     tools/batch.ts in Mcp/Batch, tools/control.ts in Mcp/Control. A confirmation asks the ledger,
--     calls the API and enters the spending in the ledger; Mcp/Server has single records and batches
--     over the one ledger.
--   * packages/pog/src: merkle.ts in Pog/Merkle, bindings/erc8263.ts in Pog/Aux and Pog/Events,
--     types.ts, validate.ts and eip712.ts in Pog/Declaration, identity.ts in Pog/Identity,
--     content.ts in Pog/Content, verify.ts in Pog/Verify.
--   * src/v2: store.ts in V2/Store, accept.ts in V2/Accept, anchor.ts in V2/Anchor. A submission
--     that is accepted is a pending row, which a worker claims under a lease and anchors. The
--     receipt of a row, from receipt.ts and routes/v2.ts, is in V2/Receipt; what its holder reads of
--     it, by receipt.ts of packages/pog/src, is there and in V2/Receipt/Trust.
--   * src/services, src/workers, src/routes, src/middleware and src/utils: anchor.ts with
--     anchor.worker.ts in V1/Anchoring; fee.ts, paymentVerifier.ts and x402Verifier.ts in V1/Payments;
--     recordsService.ts, signature.ts, receipt.ts and routes/records.ts in V1/Records, whose requests
--     check, pay through V1/Payments and insert; waitForAnchor.ts and stateInfo.ts in V1/Waiting;
--     webhookDispatcher.ts and routes/webhooks.ts in V1/Webhooks, over urlValidator.ts in V1/Urls;
--     walletAuth.ts in V1/WalletAuth and rateLimit.ts in V1/RateLimit.
--   * packages/sdk/src: http.ts and errors.ts in Sdk/Http, the checks of client.ts in Sdk/Options.
-- Common holds the tests on numbers, the lists, texts and maps that they share; Examples has inputs
-- for the theorems. A function of the source keeps its name in the spelling of this library, its
-- state is passed on explicitly, and a thrown error is a value; one thrown inside verifyDeclaration is
-- a result that is not valid.
--
-- Conventions. A text is the list of its codes. Amounts and times are natural numbers, a difference
-- of times stops at 0 as the source's comparison would have it. A table is the list of its rows in
-- the order of insertion, with the constraints of the schema. Hash functions, signature recovery,
-- the chain, the resolver and the runtime's random identifiers are parameters. The loops of
-- merkle.ts run on fuel, the number of digests, which is enough since every round halves a level;
-- the loop of waitForAnchor.ts runs on fuel, for which one round more than the intervals that cover
-- the longest wait is enough; the retries of http.ts are counted down.
--
-- Not modelled: the listing, the queries and the exports of records, the encryption of secrets, the
-- queues, the read-only tools, the signing and paying of the SDK, and the processes around them. Two
-- requests that interleave inside a handler are modelled for the
-- confirmations of Mcp/Write, for V1/Anchoring and for the statements of V2/Store; the handlers of
-- V1/Records, V1/Webhooks and Mcp/Batch run with nothing in between, an item of a batch of V1/Records
-- as a handler of its own, and so do the quotas of V2/Accept. Statements of the databases fail on
-- their constraints only. Texts that the source composes for people are left out.
pub mod Common
pub mod Mcp
pub mod Pog
pub mod V1
pub mod V2
pub mod Sdk
pub mod Examples
