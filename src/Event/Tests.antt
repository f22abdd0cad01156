-- ===== src/Event/Tests.antt =====
-- Options and events at concrete values.
use trail.Prelude.{◌≡◌, refl, List, [], ◌∷◌, codes}
use trail.Prelude.Int.{pos, to_bits64}
use trail.Id.{zero_id}
use trail.Event.{level_warn}
use trail.Event.Options.{EventOption, int, string, with_level}
use trail.Event.Build.{
  Carries, new_event, build_event, build_event-Carries, apply_options, apply_kind,
}

abbrev options : List EventOption
options = string (codes "k") (codes "v") ∷ with_level level_warn ∷ int (codes "n") (pos 7) ∷ []

build_warn : (build_event zero_id (pos 5) (codes "e") options).level ≡ level_warn
unfolding build_event apply_options apply_kind string with_level int to_bits64
build_warn = refl

build_event-Carries_example :
    Carries options
      (new_event zero_id (pos 5) (codes "e"))
      (build_event zero_id (pos 5) (codes "e") options)
build_event-Carries_example = build_event-Carries zero_id (pos 5) (codes "e") options
