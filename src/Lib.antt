-- ===== src/Lib.antt =====
-- A model of the Skills SDK: contracts and tools for packages of agent skills.
--
-- The program's path of a package. A candidate is built into a manifest and a package receipt; the
-- hardening checks the receipt against a policy; the verification of an archive reads a package ZIP
-- without extracting it and compares it with the manifest inside and with an expected receipt; the
-- preparation for a private registry joins the package receipt and the hardening receipt into a
-- receipt that publishes no credentials; the lifecycle planner proposes the lock that an
-- installation would write; and the evaluation judges the observations of a scenario set against a
-- candidate. All of them rest on the check of portable paths and on the content digests.
--
-- Which file models which part:
--   Prelude        the library's names and the lemmas on lists, texts and sorting that all share
--   Paths          src/skills_sdk/core/paths.py and core/errors.py: `require_portable_relative_path`
--                  with the parsing and printing of `PurePosixPath`
--   Json           src/skills_sdk/core/digests.py: JSON values, `canonical_json_sha256`, and the
--                  bytes that `candidate_content_sha256` hashes
--   Packaging      src/skills_sdk/models/packaging.py and models/package.py: manifests and package
--                  receipts; their validators are in Packaging/Validation
--                  src/skills_sdk/packaging/manifest.py and models/validation.py: Packaging/Build
--   PackageSafety  src/skills_sdk/core/package_safety.py
--   Hardening      src/skills_sdk/packaging/hardening.py: the five checks and the receipt, and
--                  in Hardening/Contract the validator of that receipt and the function itself
--   Archive        src/skills_sdk/packaging/archive_verification.py: Bytes has the bounded read,
--                  Directory the end record and the central directory, Receipts the verification
--                  receipt and the interface of `zipfile`, Entries, Payload and Verify the functions
--                  of these names
--   Registry       src/skills_sdk/models/registry.py and distribution/private_registry.py: Redaction
--                  and Version have the two patterns, Models the records, Evidence what is published
--                  of evidence and blockers, Prepare the receipts, Validation the validators,
--                  Candidate the preparation, Blockers and Totality what valid arguments give,
--                  Release the way of a package through the hardening to the registry
--   Lifecycle      src/skills_sdk/models/lifecycle.py and lifecycle/planning.py: PublicText has
--                  the patterns of credentials and machine paths, on the matcher of Patterns; Identity,
--                  Planning, Plan and Install the planning function with the validators of its plan
--   Evaluation     src/skills_sdk/models/evaluation.py and evaluation/deterministic.py: Models and
--                  Validation the models with their validators, Deterministic the evaluator;
--                  models/coverage.py: Coverage
--   Sweep          src/skills_sdk/validation/pr_sweep.py and models/pr_sweep.py: Porcelain parses the
--                  status of git, Git is the preflight, Closeout the accounting by a ledger,
--                  Recurring the check of recurring findings
--
-- How the code is modelled. A text is compared by its code points, a byte string is a list of
-- numbers, and a time is a number. A receipt is a record; the constant fields of its schema are
-- left out of the record and written out in its JSON form. An exception that a caller catches is a
-- value: `err` of the path check, `runtime_error`, `zip_error` and `decode_error` of a ZIP entry.
-- `none` as the result of an operation is an exception that leaves it.
--
-- Parameters. `Hash` is `hashlib.sha256` and `json.dumps`. `ZipReader` is `zipfile`: the list of
-- entries, the opening of one, and the parsing of the manifest with its schema. `lower` is
-- `str.lower`, `show_nat` the decimal text of a number. What the file system answers is the type
-- `ArchiveFile`. `Checkout` is git in a directory and what the working tree holds. `Texts` is
-- `urlsplit` with three functions on texts. `Doubles` is the division and the comparisons of
-- floats; one theorem takes it as a hypothesis that a quotient equals itself, since the scores are
-- no NaN. The result of `validate_skill_package`, which reads the file system, is an argument of
-- the build. A theorem on plans takes it as a hypothesis of `Hash` that the proposed lock has no
-- digest of another lock. The other parameters have no hypothesis, so the theorems hold whatever
-- they answer.
--
-- Fuel. The preflight of git has 9 levels, for the depths 0 to 8 that the code admits. The bounded
-- read gets `limit + 2` rounds, and every round but the last keeps a byte. The walk over the
-- headers gets `offset + 1`, and a header takes 46 bytes. The search for the end record gets the
-- length of the snapshot and 2, and every round moves to a lower offset.
--
-- Not modelled: the constraints that a field's type puts on a text (patterns and lengths). The
-- hardening also takes receipts of the first version, which lack the test of the package digest;
-- the model takes those of the second one. The offset of a ZIP entry's header is a natural number,
-- since `zipfile` gives no negative one where the directory lies within the archive, which the
-- search for the end record has tested. The validation of a package's files, the host entrypoint,
-- the other evaluators, the providers, the intake and the command line are other parts of the
-- program.
pub mod Prelude
pub mod Paths
pub mod Archive
pub mod Json
pub mod Packaging
pub mod PackageSafety
pub mod Hardening
pub mod Registry
pub mod Lifecycle
pub mod Evaluation
pub mod Sweep
