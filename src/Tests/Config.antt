-- ===== src/Tests/Config.antt =====
-- src/config over the trees of Trees: settings files, their saves and an old file.
use mathlib.Core.Option
use klip.Base.{Bool, true, false, Bytes, codes, some, [], ◌∷◌, ◌≡◌, refl, arith, pos, equal}
use klip.Json.{text, kind_at, stored_kind}
use klip.Encode.Format.{hevc}
use klip.Recorder.Settings.{AudioSource, get, system, microphone, default_settings, no_changes}
use klip.Config.Document.{SettingsDocument, settings_version, ok}
use klip.Config.Reading.{read_settings_json}
use klip.Config.Schema.{outcome, expected_reading}
use klip.Config.Schema.Whole.{read_settings_json-expected_reading}
use klip.Config.Writing.{write_settings_json}
use klip.Config.Writing.Legal.{IsLegal}
use klip.Config.RoundTrip.{read_settings_json-write_settings_json, write_settings_json-kept}
use klip.Config.RoundTrip.Utf8.{HasUtf8}
use klip.Config.Bounds.{read_settings_json-IsLegal}
use klip.Config.KlipConf.{convert_klip_conf}
use klip.Config.KlipConf.Object.{read_settings_json-convert_klip_conf}
use klip.Config.Store.{File, missing, holding, Answers, Saved, SaveCall, load, run_saves}
use klip.Config.Store.Safe.{IsSafe, run_saves-load-IsSafe}
use klip.Tests.{chosen}
use klip.Tests.Trees.{
  opaque, tree_json, tree_json-IsLawful, Tree, plain, node, end, member, encode, decode_text,
  is_clean,
}

-- Both sources of the chosen settings are alike.
chosen_choice :
    (index : AudioSource)
    → get chosen.audio index
      ≡ record { enabled = true; device = codes "sink"; gain_decibels = pos 3 }
chosen_choice system = refl
chosen_choice microphone = refl

chosen-IsLegal : IsLegal chosen
chosen-IsLegal = record {
  directory = refl;
  rate = refl;
  device = λ index. rw (chosen_choice index) refl;
  low = λ index. rw (chosen_choice index) (omega arith);
  high = λ index. rw (chosen_choice index) (omega arith);
  screen = refl;
  window = refl;
}

chosen-HasUtf8 : HasUtf8 tree_json chosen
chosen-HasUtf8 = record {
  directory = refl;
  device = λ index. rw (chosen_choice index) refl;
  screen = refl;
  window = refl;
}

-- A file with an array under a key that this Klip does not know, and a codec that it does not know either.
abbrev odd_tree : Tree
odd_tree = node (
    member (codes "theme") (opaque (codes "[1,2.5]")) (
      member (codes "output") (node (member (codes "codec") (plain (text (codes "vp9"))) end)) end))

abbrev odd_text : Bytes
odd_text = encode odd_tree

read_settings_json-expected_reading_example :
    read_settings_json tree_json odd_text chosen ≡ expected_reading tree_json odd_text chosen
read_settings_json-expected_reading_example =
    read_settings_json-expected_reading tree_json tree_json-IsLawful odd_text chosen

read_settings_json-write_settings_json_example :
    read_settings_json tree_json (write_settings_json tree_json chosen odd_text) default_settings
    ≡ ok (outcome settings_version chosen [])
read_settings_json-write_settings_json_example =
    read_settings_json-write_settings_json tree_json tree_json-IsLawful chosen default_settings
      odd_text chosen-IsLegal chosen-HasUtf8

write_settings_json-kept_example :
    (w : Tree) × (tree_json.parse (write_settings_json tree_json chosen odd_text) ≡ some w)
    × (kind_at tree_json (codes "theme" ∷ []) w
        ≡ Option.map stored_kind (kind_at tree_json (codes "theme" ∷ []) odd_tree))
unfolding decode_text is_clean encode equal
write_settings_json-kept_example =
    write_settings_json-kept tree_json tree_json-IsLawful chosen odd_text odd_tree
      (codes "theme" ∷ []) chosen-HasUtf8 refl refl refl

read_settings_json-IsLegal_example : IsLegal chosen
read_settings_json-IsLegal_example =
    read_settings_json-IsLegal tree_json (write_settings_json tree_json chosen odd_text) chosen
      (outcome settings_version chosen []) tree_json-IsLawful chosen-IsLegal
      (read_settings_json-write_settings_json tree_json tree_json-IsLawful chosen chosen odd_text
        chosen-IsLegal chosen-HasUtf8)

abbrev working : Answers
working = record { creates_directory = true; writes = true; copies = true; renames = true }

-- The first start of a Klip, without any file.
abbrev first_start : Saved
first_start = record {
  store = record {
    has_path = true;
    defaults = chosen;
    written = default_settings;
    kept = [];
    can_save = false;
  };
  disk = record { config = missing; old_config = missing; backup = missing };
}

abbrev started : Saved
started = record first_start {
  store = record first_start.store { written = chosen; can_save = true };
}

abbrev token_call : SaveCall
token_call = record {
  answers = working;
  settings = record chosen { codec = hevc; screen_token = codes "new-grant" };
  changes = record no_changes { screen_token = true };
}

abbrev is_there : File → Bool
is_there missing = false
is_there _ = true

token_run : Saved
token_run = run_saves tree_json (token_call ∷ []) started

abbrev broken_start : Saved
broken_start = record first_start {
  disk = record first_start.disk { config = holding (codes "{") };
}

abbrev broken_loaded : Saved
broken_loaded = record started { disk = record started.disk { backup = holding (codes "{") } }

broken_load : load tree_json working broken_start ≡ some (chosen, broken_loaded)
unfolding load decode_text read_settings_json
broken_load = refl

-- The file that was not JSON is kept beside the new one.
run_saves-load-IsSafe_example :
    IsSafe tree_json chosen
      (holding (codes "{"))
      (run_saves tree_json (token_call ∷ []) broken_loaded).disk
run_saves-load-IsSafe_example =
    run_saves-load-IsSafe tree_json working broken_start chosen broken_loaded (token_call ∷ []) refl
      (λ e. cc) broken_load

abbrev old_tree : Tree
old_tree =
    node
      (member (codes "output") (node (member (codes "codec") (plain (text (codes "av1"))) end)) end)

old_converted :
    convert_klip_conf tree_json (codes "[output]\ncodec = av1\n") ≡ some (encode old_tree)
unfolding convert_klip_conf encode is_clean
old_converted = refl

read_settings_json-convert_klip_conf_example :
    (document : SettingsDocument) × (read_settings_json tree_json (encode old_tree) chosen
      ≡ ok document)
read_settings_json-convert_klip_conf_example =
    read_settings_json-convert_klip_conf tree_json tree_json-IsLawful
      (codes "[output]\ncodec = av1\n") (encode old_tree) chosen old_converted
