-- ===== src/Boot/Working.antt =====
-- The simulated flash saves every configuration, and is set up once.
use secure_boot_loader_with.Base.{◌≡◌, ap, ◌∙◌}
use secure_boot_loader_with.Flash.Sim.{Shadow, qemu_shadow_magic, shadow_byte}
use secure_boot_loader_with.Flash.Sim.Driver.{sim_driver}
use secure_boot_loader_with.Flash.Sim.Kept.{
  erase_range_magic, program_bytes_magic, program_word_magic, init_magic, init_kept,
}
use secure_boot_loader_with.BootConfig.Store.Success.{sim_save_succeeds}
use secure_boot_loader_with.BootConfig.Store.Writes.{save_writes_only}
use secure_boot_loader_with.Boot.Cycle.{IsWorking}

pub sim_driver-IsWorking : IsWorking sim_driver
sim_driver-IsWorking = record {
  saves = sim_save_succeeds;
  IsReady = λ s. s.magic ≡ qemu_shadow_magic;
  init-IsReady = init_magic;
  save-IsReady =
      save_writes_only sim_driver (λ s. s.magic ≡ qemu_shadow_magic)
        (λ a n s k. erase_range_magic a n s ∙ k) (λ a bs s k. program_bytes_magic a bs s ∙ k)
        (λ a w s k. program_word_magic a w s ∙ k);
  init_keeps = λ s x k. ap (λ (t : Shadow). shadow_byte t x) (init_kept s k);
}
