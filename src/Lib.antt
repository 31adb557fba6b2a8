-- ===== src/Lib.antt =====
-- Pépin audits the configuration of a cloud tenant. A collector reads the tenant's resources, rules
-- written in Rego issue findings on them, and the program turns the findings into an assessment, a
-- report and an exit code. This library models the two ends: the collection, live or from a
-- Terraform plan, with the state on which the conclusions rest, and the program from the findings
-- on. Between them stand the rules, which the third-party engine runs.
--
-- The parts, and the files that model them:
--
-- - Model/Collection: internal/model/collection.go. The state of each unit of collection, what
--   `Record` merges (Lookup, Merge), what it keeps (Invariant), and which resource types were not
--   read in full (Incomplete). Model/Resource: the resource and the provenance of its attributes.
-- - Collect: internal/collect and internal/collectkit. Paths reads a dotted path of a JSON
--   document, Items the items of a response, Transforms and Apply are the transforms of a
--   mapping, Projection turns an item into attributes with their provenance (Attested says
--   which). Fetch is one request, Pages the loop over the pages, Listing and Served what it
--   promises. Specs is the specification of a provider, Engine what one entry of it collects
--   (Units says what), Run the whole collection and Kept what it keeps and records. Classes says
--   which errors have a class.
-- - Terraform: internal/tfparse and internal/tfmap. Plan is the document, Addresses reads an
--   address, Origins finds a block in the code, References resolves what an argument refers to
--   (Only and Refers say to what), Parse is `ParsePlan`. Filling puts the references where the
--   plan has no value, Mapping is `Apply`, Unmapped counts what it does not know. The depth of
--   the resolution is the bound of the code, 8; the loop over the prefix of a module has the
--   length of the address as fuel, and each turn takes seven characters at least.
-- - Eim: internal/eimpolicy. Reading is one call and the loops over pages, Policies the
--   collection of the inline policies, Turns how long the loops turn. Two of them have no bound
--   in the code; the model gives them a number of turns and returns `none` where they are still
--   turning.
-- - Crypto: internal/cryptopolicy and internal/tlspolicy. Which keys and connections are
--   accepted.
-- - Provider: internal/genprovider. Which types a control reads, what the contract of a provider
--   says.
-- - Assess: internal/assess. Tables and Attributes hold the locks before a `pass`, Reasons the
--   texts, Build the function of that name (Verdicts and Pass say what it concludes). Then one
--   module for each pass over the assessment: Provenance, AttestedAbsence, Degrade, Relaxations;
--   Inconclusive is the split of the findings. Same says what no pass changes. Diff compares the
--   results of two assessments (internal/assess/diff.go): Indexing its precondition, Changes and
--   Report what it returns.
-- - Exempt: internal/exempt. The exemptions: Defs is the code, Spec what it is meant to do,
--   Statuses and Effect that it does it.
-- - Policy: internal/policy and referentiel/config.go. Resolve is the section `controls` of a
--   policy, its problems and the configuration that it gives (Usable says which), Defs and Holds
--   when a setting relaxes a requirement.
-- - Profile and Scoring: internal/profile and internal/scoring. What weighs in the gate.
-- - Scan: cmd/scan.go and cmd/surface.go. Inventory reads the types, the subjects and the
--   collected attributes off the resources, Observed and Evidence say what that proves of them,
--   Setup assembles what `Build` and the degradation are given. Defs composes the passes the way
--   the command does, and computes the exit code; Stages follows one result through all passes,
--   Verdicts what the published assessment asserts, Open what the gate still sees, Exit when each
--   code is given.
-- - I18n: internal/i18n. Scankit: the data types of the module github.com/stephrobert/scankit, by
--   the fields that the code reads and writes. Prelude: lists, strings, sorting, Go maps.
-- - Examples: concrete runs.
--
-- Conventions. A Go map is the list of its entries, and a map used as a set a list of strings;
-- where the code sorts the keys the model does, and elsewhere the order of the list stands for any
-- order. A pass over a slice is a function of the whole list. A function of two results whose
-- second is a Boolean returns an Option. The language, which the code reads from a global, is an
-- argument. Go's int is ℕ: the counters count list elements, the value of a digit is not below 0,
-- and a bracket's depth stops at 0 in the code as well.
--
-- Outside the model, as parameters: net/http, net/url, encoding/json and the answers of the
-- provider's API (`Transport`), the conversions of fmt and strconv, regexp and the statements of a
-- policy document (`Go`), the files of a plan, the decoder of its expressions and path/filepath
-- (`Paths`), crypto/x509 and encoding/pem (`Readers`), what the collectors of the object storage,
-- of the inline policies and of Kubernetes return to `Run`, the structures that their answers
-- decode into (`Decoders`), the findings of the rules, the descriptors of the providers
-- (`registry`), `time.Parse`, SHA-256, and the decoding of the JSON body of a refusal. Every
-- function here is structurally recursive; the decimal printer has fuel, the number itself and one
-- more, which is at least the number of its digits, and a listing has the bound on pages of the
-- code.
--
-- Not modelled: the signature of a request and the detail of a refusal, the check of a mapping
-- against the schema of a provider, the reading and writing of files, printing, sealing and
-- verifying a bundle, the resources and the metadata in the comparison of two bundles, the JSON
-- form of an inventory, the generated documentation.
pub mod Prelude
pub mod I18n
pub mod Provider
pub mod Crypto
pub mod Scankit
pub mod Model
pub mod Collect
pub mod Terraform
pub mod Eim
pub mod Assess
pub mod Policy
pub mod Exempt
pub mod Scoring
pub mod Profile
pub mod Scan
mod Examples
