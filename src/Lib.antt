-- ===== src/Lib.antt =====
-- darkrouter routes a request for a model to one of the configured upstream providers. The router
-- (internal/router) is a pure function: from a query and a snapshot of providers, catalog, aliases and
-- health it makes an ordered list of candidates, each a provider, a credential and a model, and a skip
-- with its reason for what it left out. The executor (internal/exec) walks the list: it asks the
-- circuit breaker (internal/health) again before each attempt, makes the attempt, tells the breaker
-- the outcome, and moves on, stops or answers. The catalog (internal/catalog) says which provider
-- offers which model and with what capabilities.
--
-- Base: shared lists, association maps, signed integers, texts and Boolean tests.
-- Adapter: the outcomes of internal/adapter/adapter.go.
-- Health: internal/health. Health.Breaker is breaker.go, one function per method under its lock, with
-- the instant that the method reads from its clock as an argument; Health.Cooldown its ladder, in
-- nanoseconds with int64 products wrapped; Health.Availability, Health.Lru, Health.Persist and
-- Health.RetryAfter the files of those names. A map is an association list with one entry to a key. A
-- time is a number of nanoseconds, the zero time is 0. Go's standard parsing functions are arguments.
-- Provider: the fields of internal/provider and internal/auth/static.go that routing reads.
-- Catalog: internal/catalog. Catalog.Types holds what a model is made of, Catalog.Preset is preset.go,
-- Catalog.Join normalize.go with the two joins, Catalog.Merge merge.go with its surfaces, its prices
-- and, in Catalog.Merge.Catalogue, the function Merge; Catalog.Sync is sync.go, Catalog.Index
-- snapshot.go, Catalog.Free free.go and Catalog.Pricing pricing.go. strings.ToLower is an argument;
-- the rest of what the program uses of strings stands in Base.
-- Router: internal/router; Router.Names is model.go, Router.Order order.go, Router.Filter filter.go
-- and Router.Resolve router.go.
-- Exec: internal/exec; Exec.Advance is advance.go, Exec.Budget deadline.go, Exec.Commit commit.go and
-- commitwriter.go, Exec.RawStream rawstream.go, Exec.Forward forwardStream of forward.go, and
-- Exec.Attempts the loop runAttempts of exec.go. The loop runs on fuel, one more turn than there are
-- candidates, which is enough since every turn moves to a later candidate. What a turn reads of the
-- outside, the clock, the fleet's health, the adapters and the attempt itself, is a record of
-- functions over a world that they change, so that other requests in flight are covered.
-- Exec.Attempt is one attempt: the context that it works in (surface.go) and what it writes to the
-- request record, Exec.Attempt.Failures the classification of errors (exec.go, surface.go and
-- internal/adapter/classify.go), Exec.Attempt.Send and Exec.Attempt.Run the function attempt, up to
-- the send and from it on, and Exec.Attempt.Stream attemptStream. What is outside, the credential, the
-- adapter, the transport and the client, is asked once each and is an argument; the surfaces are an
-- interface, a function with the law that it reports through the methods of the context alone.
-- Exec.Billing is priceRecord, which prices a request and its attempts when they are over.
-- Exec.Request puts them together: the loop with the breaker as its fleet and attempt as its attempt.
-- Ir: the stream events, usage and errors of internal/ir/ir.go.
-- Sse: internal/sse over bytes, the splitter of lines and Next (reader.go) and Send (writer.go).
-- Edge: Edge.AnthropicStream is internal/edge/anthropic/stream.go with what it uses of write.go; a
-- frame stands for its JSON, and whether a send succeeds is an argument. Edge.AnthropicStream.Client
-- is a client's reading of the frames, on which the specification of the writer rests.
-- Edge.OpenaiStream is internal/edge/openai/stream.go in the same way.
-- Tokenize: internal/tokenize, the segments of a text and the choice of an encoding.
-- The examples of a part stand in its module Examples.
--
-- Not modelled: the timers, the warnings and the latencies of an attempt, what `served` does when a
-- response is committed (the early ReleaseProbe, the final provider and model), the unary and auxiliary
-- surfaces, the adapters, the other dialects, the catalog's discovery, the parsing of its documents,
-- the store, the configuration file, the admin and server packages, OAuth flows and the web interface.
-- The scanner under the reader of Sse is Go's own: Sse.Lines has what the reader relies on, the tokens
-- in a buffer of at most the cap, and a read error of the connection is left out. Strings are sequences
-- of code points; Go's that are not valid UTF-8 have no counterpart. Counters that Go keeps in an int
-- do not wrap.
pub mod Base
pub mod Adapter
pub mod Ir
pub mod Sse
pub mod Tokenize
pub mod Health
pub mod Provider
pub mod Catalog
pub mod Router
pub mod Edge
pub mod Exec
