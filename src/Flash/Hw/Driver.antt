-- ===== src/Flash/Hw/Driver.antt =====
-- The hardware backend of bootloader/src/flash_driver.c as an instance of the driver's interface.
use secure_boot_loader_with.Base.{refl, arith}
use secure_boot_loader_with.Flash.{IsFlash}
use secure_boot_loader_with.Flash.Hw.{Controller, hw_driver}
use secure_boot_loader_with.Flash.Hw.Outside.{IsController, program_word-Keeps, program_bytes-Keeps}
use secure_boot_loader_with.Flash.Hw.Stored.{program_word-stores, program_bytes-stores}
use secure_boot_loader_with.Flash.Hw.Erase.{erase_range-outside, erase_range-inside}

-- On a controller that treats the memory as its manual says, the hardware backend keeps every promise
-- of the driver's interface, so that what is shown for every driver holds on it.
pub hw_driver-IsFlash : (C : Controller) → IsController C → IsFlash (hw_driver C)
hw_driver-IsFlash C L = record {
  read_lem = λ a n m. refl;
  byte_at-lt = L.load8-lt;
  span-le = omega arith;
  span-ge = omega arith;
  program_bytes-outside = λ a bs m x room out. program_bytes-Keeps C L x a bs m room out;
  program_bytes-ok = program_bytes-stores C L;
  program_word-outside = λ a w m x room out. program_word-Keeps C L x a w m out;
  program_word-ok = program_word-stores C L;
  erase_range-outside = erase_range-outside C L;
  erase_range-inside =
      λ a n m x room pos e lo hi top w. erase_range-inside C L a n m x room pos e lo hi top;
}
