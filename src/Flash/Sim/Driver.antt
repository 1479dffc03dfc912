-- ===== src/Flash/Sim/Driver.antt =====
-- The QEMU backend as an instance of the driver's interface.
use secure_boot_loader_with.Base.{refl, arith, u8}
use secure_boot_loader_with.Flash.{FlashDriver, IsFlash}
use secure_boot_loader_with.Flash.Sim.{
  Shadow, shadow_byte, shadow_aware_read, flash_init, flash_read, flash_erase_range,
  flash_program_word, flash_program_bytes, flash_ota_slot_span,
}
use secure_boot_loader_with.Flash.Sim.Cells.{shadow_byte-lt}
use secure_boot_loader_with.Flash.Sim.Program.{
  program_loop-outside, program_loop-ok, flash_program_word-outside, flash_program_word-ok,
}
use secure_boot_loader_with.Flash.Sim.Erase.{flash_erase_range-outside, flash_erase_range-inside}

abbrev pub sim_driver : FlashDriver
sim_driver = record {
  Mem = Shadow;
  byte_at = shadow_byte;
  bus_at = λ s a. u8 (s.rom a);
  flash_init = flash_init;
  flash_read = flash_read;
  flash_erase_range = flash_erase_range;
  flash_program_word = flash_program_word;
  flash_program_bytes = flash_program_bytes;
  flash_ota_slot_span = flash_ota_slot_span;
}

-- The simulated flash keeps every promise of the driver's interface.
pub sim_driver-IsFlash : IsFlash sim_driver
unfolding flash_read shadow_aware_read flash_program_bytes flash_ota_slot_span
sim_driver-IsFlash = record {
  read_lem = λ a n m. refl;
  byte_at-lt = shadow_byte-lt;
  span-le = omega arith;
  span-ge = omega arith;
  program_bytes-outside = program_loop-outside;
  program_bytes-ok = program_loop-ok;
  program_word-outside = flash_program_word-outside;
  program_word-ok = flash_program_word-ok;
  erase_range-outside = flash_erase_range-outside;
  erase_range-inside = flash_erase_range-inside;
}
