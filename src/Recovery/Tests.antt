-- ===== src/Recovery/Tests.antt =====
-- The menu of recovery at an example: a report, an upload that resets.
use secure_boot_loader_with.Base.{[], ◌∷◌, none, some}
use secure_boot_loader_with.Flash.Sim.Driver.{sim_driver}
use secure_boot_loader_with.OtaClient.{Input}
use secure_boot_loader_with.OtaClient.Receive.Example.{flash}
use secure_boot_loader_with.OtaClient.Receive.Installed.{session, at_end}
use secure_boot_loader_with.Recovery.{Recovery}
use secure_boot_loader_with.Example.{quiet_block}

-- A timeout, an unknown command, and an upload.
abbrev typed : Input
typed = none ∷ some 0x0D ∷ some 0x75 ∷ session

abbrev left : Recovery sim_driver
left = record { shared = at_end.shared; mem = at_end.client.mem; reports = [] }

abbrev fresh_menu : Recovery sim_driver
fresh_menu = record { shared = quiet_block; mem = flash; reports = [] }
