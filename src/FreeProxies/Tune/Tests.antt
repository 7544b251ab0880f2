-- ===== src/FreeProxies/Tune/Tests.antt =====
-- Four enabled sources, two of which have died.
use unified_proxy_pool.Base.{
  ◌≡◌, ◌≤◌, ◌-◌, refl, true, List, [], ◌∷◌, replicate, Text, codes, none, some, sort_by,
}
use unified_proxy_pool.FreeProxies.Tune.{
  TuneConfig, default_tune_config, config_or_default, SourceYieldRecord, TuneInput, TuneDecision,
  disable, keep, plan_source_tuning, count_enabled,
}
use unified_proxy_pool.FreeProxies.Tune.Floor.{count_disable, plan_source_tuning_lem}

abbrev dead : SourceYieldRecord
dead = record {
  source = [];
  measure_at = 0;
  fetched = 60;
  sampled = 60;
  alive = 0;
  estimate = 0;
  action = codes "DISABLE";
}

abbrev alive : SourceYieldRecord
alive = record {
  source = [];
  measure_at = 0;
  fetched = 60;
  sampled = 60;
  alive = 30;
  estimate = 90;
  action = codes "KEEP";
}

abbrev input : Text → SourceYieldRecord → TuneInput
input source r = record { source = source; enabled = true; records = replicate 3 r }

abbrev inputs : List TuneInput
inputs =
    input (codes "a") dead
    ∷ input (codes "b") alive
    ∷ input (codes "c") dead
    ∷ input (codes "d") alive
    ∷ input (codes "e") alive
    ∷ []

-- With a floor of four, the second of the dead sources stays on.
abbrev config : TuneConfig
config = record default_tune_config { min_enabled = 4 }

abbrev plan : List TuneDecision
plan =
    record { source = codes "a"; action = disable }
    ∷ record { source = codes "c"; action = keep }
    ∷ record { source = codes "b"; action = keep }
    ∷ record { source = codes "d"; action = keep }
    ∷ record { source = codes "e"; action = keep }
    ∷ []

plan_test : plan_source_tuning inputs config ≡ some plan
unfolding plan_source_tuning sort_by
plan_test = refl

-- Where half of the sources look dead, nothing is done.
abort_test :
    plan_source_tuning (input (codes "a") dead ∷ input (codes "b") alive ∷ []) config ≡ none
unfolding plan_source_tuning
abort_test = refl

plan_source_tuning_lem_example :
    count_disable plan ≤ count_enabled inputs - (config_or_default config).min_enabled
plan_source_tuning_lem_example = plan_source_tuning_lem inputs config plan plan_test
