-- ===== src/Lib.antt =====
-- A verification library for Browser 2030B: the policy, security and negotiation logic of its Rust
-- crates, in a model that follows the code function by function.
--
-- The parts, and how they interact:
--   Ipc          engine/ipc/src/lib.rs: the capability broker. `Broker::mint` registers an id,
--                `verify` accepts a capability against the registry and the clock, `revoke` removes
--                an id, `Capability::attenuate` derives a weaker one. Interleaving has `mint` as its
--                two atomic actions, which those of other threads can separate.
--   Policy       admin/policy-engine/src: Precedence (precedence.rs), Audit (audit.rs), Signing
--                (signing.rs), Provenance (provenance.rs) and Cli (main.rs), which drives the
--                resolver of Precedence from the command line; Cli/Output is what it prints, and
--                Cli/Journey goes from its arguments to that.
--   Extensions   Mv4 (extensions/mv4-host/src/lib.rs) translates a manifest; Bridge
--                (extensions/policy-bridge/src/lib.rs) decides on its installation with the resolver
--                of Policy.Precedence; Mv2 and Mv3 (extensions/mv2-shim, extensions/mv3-host) make the
--                manifest that Mv4 translates out of an older document; Journey goes from the
--                document and the settings to the decision.
--   Agent        Policy and Host (ai/mcp-host/src/lib.rs) hold the grants and the tools; Runtime,
--                Journal and Did (ai/agent-runtime/src) step an agent through that gate; Sessions
--                has whole runs, Reversal what undoing brings back after them.
--   Redaction    ai/redaction/src/lib.rs, with the proofs on what a redacted text tells in Leaks.
--   Net          engine/net/src: Transport (lib.rs), HttpsOnly, Pqc, Tls, and Tracking
--                (tracking_protection.rs).
--   Isolation    Blink (engine/blink-integration/src/site_isolation.rs) and Gecko
--                (engine/gecko-integration/src/fission.rs) derive the key of a process; Hosts has the
--                steps of that derivation that both files spell out, Allocation the map from keys to
--                process ids. Agreement, Overlap and Confusion compare the two.
--   Rendering    engine/blink-integration/src: Selector (renderer_selector.rs), Tee, Throttling and
--                Fingerprint, with the proofs on budgets and seeds in Budgets and Seeds; Engines
--                (engine/spidermonkey-bindings/src/lib.rs, engine/v8-bindings/src/lib.rs).
--   Storage      engine/storage/src: Profiles (lib.rs), MemorySaver, SiteSettings and History
--                (semantic_history.rs), with the proofs on the ranking, on the order of words and
--                on the vectors in History/Ranking, History/Bags and History/Vectors.
--   Gpu          engine/gpu/src: Compositor, Capture and Energy.
--   Sync         Server, E2ee and Client (sync/server, sync/e2ee, sync/client): the client seals a
--                record with E2ee and puts it on the Server under a version; Client/Devices has several
--                devices over one server.
--   Tools        Simulator (tools/policy-simulator/src/main.rs), Fuzz (tools/fuzz/fuzz_targets), Icon
--                (ui/shell-desktop/src-tauri/build.rs) and Host (src/lib.rs beside it).
--   Integration  the assertions of tests/integration/tests/capability_and_policy.rs on the model.
--   Prelude      shared lists, texts, association lists, sorting, bits, hashes, results and floats.
--
-- How code becomes a definition. A struct is a record and an enum a data type, with the names of the
-- source in snake_case where antt asks for it. A method that takes `&mut self` returns the new state,
-- beside its result if it has one. A text is the list of its code points, and `len` and `as_bytes` go
-- through UTF-8. A `HashMap` is an association list in which `insert` replaces; the order in which
-- such a map is iterated is not specified by Rust, and no theorem depends on it. A word of u64 or u32
-- is a natural number, and the sums that may pass the bound are written with the wrap-around of the
-- release profile. An `expect` that cannot fail is a case that the test before it rules out.
-- Names that are reserved words or taken have a suffix: `record_entry` for `record`, `open_record` for
-- `open`, `no_such_tool` for `StepResult::UnknownTool`.
--
-- What is a parameter: the clock that `now_secs` reads; the version that the build hands to the
-- command line, whose feature opa-wasm is off; the verifier of one signature, which is the
-- caller's closure in the code as well; `str::to_lowercase` and `char::is_alphanumeric`; the calls of
-- the crates png and ico, a panic on the pixels included, and the two icon files. Floats are a type with the operations that the code
-- calls (Prelude/Floats): a theorem on them takes the laws of IEEE 754 that it needs as `IsIeee`, and
-- whole numbers with one further value for what is not finite satisfy those laws.
--
-- Fuel: only `AuditLog::root` has a loop that is not structural. It runs on as much fuel as the log
-- has entries, and a level of two or more nodes has a shorter successor.
--
-- Not modelled: `run` of the desktop shell (ui/shell-desktop/src-tauri/src/lib.rs), which only hands
-- its parts to Tauri; the Cap'n Proto codec, which is not in the repository; what mutexes and atomics
-- do beyond making one action atomic; and everything that is not Rust.
pub mod Prelude
pub mod Ipc
pub mod Policy
pub mod Extensions
pub mod Agent
pub mod Redaction
pub mod Net
pub mod Isolation
pub mod Rendering
pub mod Storage
pub mod Gpu
pub mod Sync
pub mod Tools
pub mod Integration
