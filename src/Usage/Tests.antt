-- ===== src/Usage/Tests.antt =====
-- Runs of fusion_relay/usage.py on small inputs.
use devin_fusion_via_codex.Common.{◌≡◌, refl, true, false, none, some, List, [], ◌∷◌, String}
use devin_fusion_via_codex.Usage.{
  number, other, Item, Role, lead, sidekick, completed, Response, Identity, named, unidentified,
  record_usage, aggregate,
}
use devin_fusion_via_codex.Usage.Once.{record_again}
use devin_fusion_via_codex.Usage.Roles.{IsTally, aggregate-IsTally}

abbrev reference : Role → Identity → String
reference role (named text) = text
reference role (unidentified n) = "unidentified"

abbrev response : Response
response = record {
  id = some "r1";
  status = some "completed";
  usage = record {
    input_tokens = number 7;
    output_tokens = number 5;
    cached_tokens = other;
    reasoning_tokens = number 2;
  };
}

abbrev entries : List Item
entries =
    record {
      counts = record {
        input_tokens = some 7;
        output_tokens = none;
        cached_tokens = none;
        reasoning_tokens = some 3;
      };
      response_ref = "r1";
      role = lead;
      status = completed;
      identified = true;
      conflict = false;
    }
    ∷ record {
      counts = record {
        input_tokens = some 4;
        output_tokens = some 1;
        cached_tokens = none;
        reasoning_tokens = none;
      };
      response_ref = "r0";
      role = sidekick;
      status = completed;
      identified = true;
      conflict = false;
    }
    ∷ []

record_again_example :
    record_usage reference response "lead" (record_usage reference response "lead" entries)
    ≡ record_usage reference response "lead" entries
record_again_example = record_again reference response "lead" "r1" entries refl refl

aggregate-IsTally_example : IsTally entries (aggregate entries)
aggregate-IsTally_example = aggregate-IsTally entries
