-- ===== src/Lib.antt =====
-- SecPal deployment: the contracts by which reviewed changes reach providers and hosts.
--
-- The repository drives providers and hosts through small Python contracts. A publication is
-- meant to replace the served configuration so that a crash loses neither the old nor an activated
-- new one, and the janitors to delete the cloud resources that a run left behind, and no others. A
-- public finding is admitted against what its source may say, and a stream adapter frames the
-- notifications of it. A provider
-- capability contract says what a request to an adapter, the authority to send it and the
-- result may hold, and admits a request under an authority and a result for a request. Two
-- clients stand on it. The endpoint switch moves the routing of a deployment from one target
-- to another by at most one dispatch. The firewall contract plans a replacement of the owned
-- firewall slice from an accepted list of prefixes, and verifies, recovers and rolls back the
-- mutation by fresh reads.
--
-- Files:
--   Base        the shared names; Base/Results the objects that a `type(x) is T` test inspects
--               and the calls that raise; Base/Text `str` and the patterns; Base/Json the
--               documents that are bound by a digest; Base/Runtime what the interpreter gives;
--               Base/Networks sorted sets of networks.
--   Capability  scripts/provider-capability-contract.py. Format, Target, Request and Outcome
--               have the dataclasses with `__post_init__` as functions; Admit has
--               `admit_request` and `admit_result`; Lawful and Construct have the theorems.
--   Endpoint    scripts/endpoint_switch.py. State has the dataclasses and `plan`, Ports the
--               protocols `Observer`, `Adapter` and `CutoverAuthority`, Assess `assess`, Switch
--               `inspect`, `reconcile` and `execute` cut at each call of a port; Trace records
--               the calls, and Provider says what lawful ports promise.
--   Firewall    scripts/provider-firewall-contract.py. Prefixes, Types, Documents, Observe,
--               Plan, Verify and Rollback have the code in its order; Observed, Binding, Planned,
--               Recovery and RoundTrip have the theorems.
--   Lkg         scripts/cloudfront-origin-prefix-lkg.py. Platform has what comes from the
--               interpreter, Candidate the document and its digest, Provenance and Prefixes the
--               checks of its fields, Admit `build_candidate`, `validate_candidate` and
--               `admit_successor`, Store the state directory and the operations on it; History
--               has the theorems on sequences of operations, Main the command line.
--   Publication scripts/haproxy_config_lifecycle.py. Disk has the files and what a power failure
--               may leave of them, Act the computations whose calls return, raise or are the
--               last before a crash, Journal the record and `stage`, Publish `publish`, Recover
--               `recover_publication`; Safe says what may be found at any moment, and Crash has
--               the theorems on crashes and recoveries.
--   Subids      scripts/ci-cloud/allocate-rocky-subids.py: the entries of the two files, and the
--               search over all 65520 aligned ranges, by recursion on the number left.
--   Janitor     scripts/ci-cloud/gcp-rocky-janitor.py and gcp-janitor.py. Call has the calls of a
--               client, Patterns and Dict the shared patterns and the members of labels.
--               In Rocky, Contract has the ownership contract, Observe `admit_exact` to
--               `cleanup_run`, Expired `cleanup_expired`, Request the listing and the deletion of
--               `GCPClient`, Authority `exact_authority`; Trace, Survey, Justify, Turn and
--               Cleanup prove what stands before a deletion, Provider what a lawful provider is
--               left with. In Gcp, Contract has `parse_candidate`, Cleanup `cleanup_expired` over a
--               client, Client the `GCPClient` down to its requests and the `try` block of `main`;
--               Keeps is what a cleanup keeps over a client with three laws, and Due
--               shows the laws of `GCPClient` by its requests.
--   Findings    scripts/public_findings.py: `stream_adapter`. Writing and Framing say what the stream
--               takes, Finishing that a call ends. Admission has `Source` and `accept`, and
--               Notification `notify`; its Sent is about any `send`, Adapter about that of
--               the stream adapter.
--   Rootless    scripts/production-state.py: `map_rootless_id` and the ranges that it is given.
--   Samples     data for the tests.
--
-- Conventions. A value that a caller hands over is `exact` if it passes the type test of the
-- code and `other` if it does not. A call that raises is `err` with the exception and its
-- message; checks run in the order of the source. The fields of a dataclass are those its
-- `__post_init__` accepts. A loop runs over a finite sequence or counts its turns, so it needs no
-- fuel; only three `while` loops have fuel: that of the Rocky janitor's `list_component`, whose
-- theorem is for every fuel; that of `list_resources`, for which one turn for each page is enough,
-- and which counts as an escaping exception in a run that has less; and that of the adapter's
-- `send`, for which one turn for each byte is enough. A set of operations is a record of four flags.
--
-- Parameters. The table of printable code points, `ipaddress.ip_network` and SHA-256 over the
-- canonical text of a document are fields of `Runtime`; the ports of the endpoint switch are a
-- record of functions over a world. `Platform` has the calendar, the digest and the length of
-- a text for the accepted prefixes, and `Answers` what the file system answers to one
-- operation on a state directory: a refusal before the work, a reading that fails, a write
-- that fails before or after its rename. A document that was written is read back as the same
-- object. What a theorem needs of them it takes as a hypothesis: that two documents do not
-- collide, or that the ports are lawful.
--
-- A publication takes a list of verdicts, one for each call of the system or of a callback, and
-- goes well where the list ends, so every failure and every crash is some list. A power failure
-- leaves of each directory entry any value that it had since its directory was synchronized. The
-- wrapper that admits the paths and holds the lock is not part of it: nobody else writes the
-- files. JSON and SHA-256 of the journal are a `Codec`.
--
-- A janitor's client is a record of calls over any world, and a traced client keeps a log of
-- them. What the code reads of a resource is a record; the JSON text of a description and the
-- timestamps are given as what they are read as. The client of gcp-janitor.py is also modelled over
-- its requests: `Ports` has the first bytes of each response and `json.loads`, and a text has no
-- lone surrogates.
--
-- The `Codec` of a notification has `json.loads` of pairs, in which only the pairs of the outer
-- object are told apart, the canonical texts, and SHA-256. A member of the object is a text, a
-- natural number, `null`, or any other value.
--
-- Not modelled: the HTTPS retrieval, the JSON text, the inspection of paths, owners and locks
-- (their verdicts are in `Answers` and in the cases of `File`), the network, processes and
-- cloud interfaces, the rendering of configuration texts, and the observers of the
-- qualification hosts; `tls_finding` and the health rules of the viewer TLS contract on which it
-- stands; the command lines and the output of the janitors, digitalocean-janitor.py, and the
-- diagnostics of the Rocky one; the validators of evidence, of CI and of the production contract,
-- which are long lists of checks of documents. The frozen dataclasses cannot change after their
-- construction, so there is no aliasing to model.
pub mod Base
pub mod Capability
pub mod Endpoint
pub mod Findings
pub mod Firewall
pub mod Janitor
pub mod Lkg
pub mod Publication
pub mod Rootless
pub mod Samples
pub mod Subids
