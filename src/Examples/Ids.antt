-- ===== src/Examples/Ids.antt =====
-- Concrete inputs for the theorems on src/extension/fake_id0/fake_id0.c.
use proot.Prelude.{◌-◌, ◌^◌, ◌≡◌, refl, false, arith, ok}
use proot.Creds.{Ids, Config, setresxid, setrexid, handle_call, setuid, setreuid}
use proot.Creds.Change.{setrexid_lem}
use proot.Creds.Drop.{only, Keeps, NoRoot, here, next, Reach-Keeps, setuid-drops}

-- A set-user-ID program of the user 7, run by the user 5.
abbrev program : Ids
program = record { real = 5; effective = 7; saved = 7; fs = 7 }

abbrev root_config : Config
root_config = record { uid = only 0; gid = only 0 }

abbrev program_config : Config
program_config = record { uid = program; gid = only 5 }

abbrev swapped : Ids
swapped = record { real = 7; effective = 5; saved = 5; fs = 5 }

program-swapped : setrexid false program 7 5 ≡ ok swapped
unfolding setrexid
program-swapped = refl

setrexid_example :
    (swapped.real ≡ 7) × (swapped.effective ≡ 5) × (swapped.saved ≡ 5) × (swapped.fs ≡ 5)
setrexid_example = setrexid_lem false program swapped 7 5 program-swapped

program-dropped :
    setresxid false program (2 ^ 32 - 1) 5 (2 ^ 32 - 1)
    ≡ ok (record { real = 5; effective = 5; saved = 7; fs = 5 })
unfolding setresxid
program-dropped = refl

Reach-Keeps_example :
    Keeps program (handle_call program_config (setreuid 7 5)).0.uid
    × NoRoot (handle_call program_config (setreuid 7 5)).0.uid
Reach-Keeps_example =
    Reach-Keeps {c = program_config} (omega arith, omega arith, omega arith)
      (next (setreuid 7 5) here)

-- What has been tried behind setuid(2).
abbrev dropped_config : Config
dropped_config = (handle_call (handle_call root_config (setuid 9)).0 (setuid 0)).0

setuid-drops_example :
    (dropped_config.uid.real ≡ 9)
    × (dropped_config.uid.effective ≡ 9)
    × (dropped_config.uid.saved ≡ 9)
    × (dropped_config.uid.fs ≡ 9)
setuid-drops_example =
    setuid-drops root_config dropped_config 9 refl (omega arith) (next (setuid 0) here)
