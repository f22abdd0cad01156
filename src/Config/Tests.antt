-- ===== src/Config/Tests.antt =====
-- Configurations, and the theorems at one of them.
use trail.Prelude.{◌≡◌, refl, true, [], codes}
use trail.Prelude.Int.{pos, negsuc}
use trail.Config.{Config, ok, err, negative_size, Usable, normalize_config, normalize_config-Usable}

abbrev plain : Config
plain = record {
  service = codes "worker";
  environment = [];
  version = [];
  has_sink = true;
  buffer_capacity = pos 0;
  batch_size = pos 8;
  flush_interval = pos 0;
  full_policy = 1;
}

abbrev plain_normalized : Config
plain_normalized = record plain { buffer_capacity = pos 4096; flush_interval = pos 100_000_000 }

plain_accepted : normalize_config plain ≡ ok plain_normalized
unfolding normalize_config
plain_accepted = refl

negative_refused : normalize_config (record plain { batch_size = negsuc 0 }) ≡ err negative_size
unfolding normalize_config
negative_refused = refl

normalize_config-Usable_example : Usable plain plain_normalized
normalize_config-Usable_example = normalize_config-Usable plain plain_normalized plain_accepted
