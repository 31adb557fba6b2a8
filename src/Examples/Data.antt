-- ===== src/Examples/Data.antt =====
-- A small tenant of one provider: a volume without encryption, a server and a key.
use pepin.I18n.{Lang}
use pepin.Prelude.{
  ℕ, String, true, false, Option, none, some, List, [], ◌∷◌, Dict, if◌then◌else◌, ◌==◌,
}
use pepin.Model.Collection.{CollectionOutcome, CollectionUnit}
use pepin.Scankit.{Run, Finding}
use pepin.Policy.{Relaxation}
use pepin.Exempt.{Exemption}
use pepin.Assess.Build.{Control, Scope}
use pepin.Assess.Provenance.{ProvenanceIndex}
use pepin.Scan.{Inputs, Flags}

abbrev pub volume_code : String
volume_code = "blockstorage_volume_encryption"

abbrev pub server_code : String
server_code = "compute_instance_deletion_protection"

abbrev pub key_code : String
key_code = "iam_accesskey_expiration_set"

abbrev pub control_of : String → Control
control_of severite = record {
  titre = "Titre";
  titre_en = "Title";
  severite = severite;
  fournisseurs = "outscale" ∷ [];
  scsl = "CLD-STO-1" ∷ [];
  frameworks = ("iso_27001_2022", "A.8.24" ∷ []) ∷ [];
  remediation = "";
  remediation_en = "";
}

abbrev pub run : Run
run = record {
  source = "live";
  target = record {
    id = "outscale/eu-west-2";
    provider = "outscale";
    region = "eu-west-2";
    platform = "";
  };
}

abbrev pub scope : Scope
scope = record {
  lang = Lang.en;
  provider = "outscale";
  controls =
      (volume_code, control_of "high")
      ∷ (server_code, control_of "medium")
      ∷ (key_code, control_of "critical")
      ∷ [];
  resource_types = "blockstorage_volume" ∷ "compute_instance" ∷ "access_key" ∷ [];
  na_reasons = [];
  verified = volume_code ∷ server_code ∷ key_code ∷ [];
  types_of =
      (volume_code, "blockstorage_volume")
      ∷ (server_code, "compute_instance")
      ∷ (key_code, "access_key")
      ∷ [];
  attrs_by_type =
      ("blockstorage_volume", "encrypted" ∷ [])
      ∷ ("compute_instance", "deletion_protection" ∷ [])
      ∷ ("access_key", "creation_date" ∷ [])
      ∷ [];
  run = run;
}

abbrev pub finding_of : String → String → String → Finding
finding_of code severity subject = record {
  code = code;
  title = "";
  message = "resource : not as required";
  severity = severity;
  subject = subject;
  remediation = "";
  labels = ("category", "security") ∷ [];
}

abbrev pub open_volume : Finding
open_volume = finding_of volume_code "high" "vol-1"

abbrev pub unprotected_server : Finding
unprotected_server = finding_of server_code "medium" "vm-1"

abbrev pub lasting_key : Finding
lasting_key = finding_of key_code "critical" "AK1"

abbrev pub exemption : Exemption
exemption = record {
  control = volume_code;
  resource = "vol-1";
  justification = "migration";
  expires_at = "2030-01-01";
  owner = "ops";
  approved_by = "ciso";
}

-- A parser of the one date of the example.
abbrev pub parse : String → String → Option ℕ
parse layout text = if text == "2030-01-01" then some 1000 else none

abbrev pub sha256 : String → String
sha256 text = "digest"

abbrev pub unit_of : String → List String → CollectionUnit
unit_of name types = record {
  unit = name;
  types = types;
  attempted = true;
  complete = false;
  error = CollectionOutcome.permission_denied;
  detail = "403";
}

abbrev pub servers_refused : Dict CollectionUnit
servers_refused = (server_code, unit_of "vms" ("compute_instance" ∷ [])) ∷ []

-- The collector looked for one attribute of the keys, and not for their expiration.
abbrev pub provenance : ProvenanceIndex
provenance =
    (
      "access_key",
      ("creation_date", record { sources = "api:ReadAccessKeys" ∷ []; observed = 1; total = 1 })
          ∷ [],
    )
    ∷ []

abbrev pub inputs_of : List Finding → List Exemption → Dict CollectionUnit → Inputs
inputs_of findings exemptions degraded = record {
  scope = scope;
  findings = findings;
  provenance = provenance;
  degraded = degraded;
  grants = ("vms", "ReadVms") ∷ [];
  exemptions = exemptions;
  parse = parse;
  sha256 = sha256;
  now = 7;
  subjects = "vol-1" ∷ "vm-1" ∷ "AK1" ∷ [];
  relaxations = [];
}

abbrev pub flags : Flags
flags = record { gate = "all"; strict = false }

abbrev pub relaxations : Dict (List Relaxation)
relaxations =
    (
      volume_code,
      record {
        control = volume_code;
        parameter = "snapshots.max_age_days";
        constraint = "au_plus_le_defaut";
        default = "7 days";
        effective = "90 days";
        dropped_references = "iso-27001:A.8.24" ∷ [];
      }
          ∷ [],
    )
    ∷ []
