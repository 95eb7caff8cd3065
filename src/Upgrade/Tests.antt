-- ===== src/Upgrade/Tests.antt =====
-- Versions, an upgrade that fails half-way, and the daemon after it, run.
use uptp.Common.{
  ℕ, suc, ◌≡◌, ◌↔◌, refl, none, some, List, [], ◌∷◌, ◌++◌, true, false, gives, length,
}
use uptp.Common.Decimal.{atoi}
use uptp.Upgrade.Version.{less, compare_version, compare_parts, split_dots}
use uptp.Upgrade.Install.{old_program, Disk, LatestInfo, Answers, upgrade_myself}
use uptp.Upgrade.Install.Laws.{runs, IsMoved, IsReplaced, upgrade_myself_breaks_iff}
use uptp.Upgrade.Daemon.{Daemon, Round, run, was_stopped, gave_up}
use uptp.Upgrade.Daemon.Laws.{run_restarts, run-upgrade_myself}

-- "0.3.9", "0.3.10", "1.0" and "1.00"
abbrev v0_3_9 : List ℕ
v0_3_9 = 48 ∷ 46 ∷ 51 ∷ 46 ∷ 57 ∷ []

abbrev v0_3_10 : List ℕ
v0_3_10 = 48 ∷ 46 ∷ 51 ∷ 46 ∷ 49 ∷ 48 ∷ []

older : compare_version v0_3_9 v0_3_10 ≡ less
unfolding compare_version compare_parts split_dots atoi
older = refl

abbrev installed : Disk
installed = record {
  bin = some (record { content = old_program; executable = true });
  bak = none;
  tmp = none;
}

abbrev latest : LatestInfo
latest = record { version = v0_3_10; download_server = "12D3"; download_path = "gateway" }

-- The disk is full when the new program is copied.
abbrev full : Answers
full = record {
  query = gives latest;
  download = gives 200;
  create_temp = none;
  copy_body = none;
  executable = none;
  rename = none;
  open_download = none;
  create_target = none;
  copy_file = some "no space left on device";
  chmod = none;
}

full-IsMoved : IsMoved v0_3_9 full
full-IsMoved = record {
  info = latest;
  queried = refl;
  newer = older;
  downloaded = refl;
  stored = (refl, refl);
  moved = (refl, refl);
}

not_replaced : IsReplaced v0_3_9 full → ⊥
not_replaced (o, (c, (f, m))) = cc f

upgrade_myself_breaks_iff_example :
    (runs (upgrade_myself v0_3_9 full installed).1.bin ≡ false)
    ↔ (IsMoved v0_3_9 full × (IsReplaced v0_3_9 full → ⊥))
upgrade_myself_breaks_iff_example = upgrade_myself_breaks_iff v0_3_9 full installed refl

abbrev idle : Daemon
idle = record { has_proc = false; stopped = false }

abbrev crash : Round
crash = record { create_log = none; start_process = none; stopped_meanwhile = false }

abbrev stopping : Round
stopping = record crash { stopped_meanwhile = true }

abbrev two_crashes : List Round
two_crashes = crash ∷ crash ∷ []

run_restarts_example :
    run none none (two_crashes ++ (stopping ∷ [])) installed idle
    ≡ (was_stopped, (suc (length two_crashes), installed))
run_restarts_example =
    run_restarts none none installed refl two_crashes stopping [] idle refl refl refl refl refl

run-upgrade_myself_example :
    (run none none (crash ∷ []) (upgrade_myself v0_3_9 full installed).1 idle
      ≡ (gave_up, (0, (upgrade_myself v0_3_9 full installed).1)))
    × (runs (upgrade_myself v0_3_9 full installed).1.bin ≡ false)
run-upgrade_myself_example =
    run-upgrade_myself none none v0_3_9 full installed crash [] idle refl full-IsMoved not_replaced
      refl
