-- ===== src/Lib.antt =====
-- The secure dual-bank bootloader with over-the-air updates for the STM32F407: a model of its C
-- code and the theorems on it.
--
-- The bootloader (bootloader/src/main.c) starts at reset. It loads the boot configuration from
-- flash, takes in the application's confirmation of the last boot from 16 bytes of shared SRAM,
-- carries out a pending swap to the other slot, verifies the active slot, and jumps into it. The
-- configuration is saved after each of these steps that changed it. Verification hashes the image
-- in a slot (SHA-256), checks its CRC-32 and its ECDSA signature. The OTA client receives frames
-- over a UART and writes an image, or a patch, to the inactive slot. All of this reads and writes
-- the flash through one driver.
--
-- Which file models which part:
--   Crc32            bootloader/src/crc32.c, bootloader/include/crc32.h
--   Sha256           bootloader/src/sha256.c; Sha256/Reference states the standard's definition
--   MemoryMap        common/memory_map.h
--   FirmwareFormat   common/firmware_format.h
--   BootConfig       bootloader/src/boot_config.c on a record; BootConfig/Store on flash
--   Flash            bootloader/include/flash_driver.h as the interface `FlashDriver`, with what it
--                    owes its callers as `IsFlash`; Flash/Sim is the QEMU backend of
--                    bootloader/src/flash_driver.c, an instance of both; Flash/Hw is its hardware
--                    backend, which is one if the controller is as its manual says
--   Crypto           bootloader/src/crypto.c
--   SharedMemory     common/shared_memory.h, application/include/bootloader_api.h
--   Boot             bootloader/src/main.c
--   OtaClient        bootloader/src/ota_client.c: the frames and the receive functions of
--                    bootloader/src/uart.c; OtaClient/Session the handlers of START, START_DELTA and
--                    DATA; OtaClient/Receive the handler of END, the answers and the receive loop
--   DeltaPatch       bootloader/src/delta_patch.c: the check of the base image; DeltaPatch/Apply the
--                    application of a patch, with bootloader/include/hpatch_decompress_tuz.h;
--                    DeltaPatch/Replay is the same on lists of bytes, the specification that
--                    DeltaPatch/Whole ties to the flash
--   Recovery         bootloader/src/recovery.c
--   Uart             bootloader/src/uart.c and bootloader/src/iwdg.c: the registers, and what the log
--                    prints; Uart/Refine ties the receive functions to the ones of OtaClient
--   Application      application/src/app_main.c and application/src/system_app.c over `Bus`
--   Board            the bootloader and the application over the resets of a board
--   Example          concrete images, keys and configurations for the Tests modules
--   Base             shared lemmas on lists, words and bitwise operations
--
-- How state and operations correspond to the code. A definition has the name of the C function it
-- models. A struct is a record with the struct's fields; its bytes in memory are written out where
-- the code reads or writes it whole (`bytes_of`, `of_bytes`, `header_of`). The flash is an abstract
-- state `D.Mem` that the driver's functions take and return; the boot functions run for every
-- driver, and the theorems that depend on the flash's behaviour assume `IsFlash D`. The variables
-- `cfg` and `cfg_dirty` of `main`, the shared block and the flash together are a `BootState`. Early
-- returns and nested tests are helpers named for the step that follows. Integers are natural
-- numbers with the wrap-around of their width written out (`u8`, `u32`, `u64`).
--
-- Bounds and fuel. `read_chunks` runs on fuel, one more than the bytes left, and always returns.
-- `erase_chunks` has 33 rounds, more than the 32 chunks of the largest sector; `erase_sectors` has
-- 13, one more than there are sectors, and reports an error if it runs out. `pick_loop` has the 4
-- rounds of MAX_SWAP_RETRIES. `receive_loop` and `menu_loop` return `none` if they run out; every
-- round uses up input or counts one of at most 16 errors, so the fuel that `ota_client_receive` and
-- `recovery_mode_run` give covers every finite input. `wait_poll`, `txe_poll`, `iwdg_poll` and `getc_poll`
-- count down the polls that the code counts up. `digit_loop` has 32 rounds, where a number of 32 bits
-- has at most 10 digits in base 10 or 16; `printf_loop` has a round for each character of the format.
--
-- What is a parameter. micro-ecc's key check and signature check, and the compiled-in key with its
-- fingerprint, are the record `Ecc`; nothing is assumed of them. HPatchLite and tinyuz are the record
-- `PatchLib`: a call makes finitely many of the callbacks it is given, each of which may depend on
-- the answers before, and has a result; nothing else is assumed of them. The registers of the flash
-- controller with the memory behind it are the record `Controller`, and those of the UARTs and the
-- watchdog the record `Bus`. Nothing is assumed of a bus; Flash/Hw/Stm32 assumes what the manual
-- of the STM32F4 says of PSIZE (`IsStm32`), and Flash/Hw/Outside what it says of the memory
-- (`IsController`), and the theorems that need it name it. The theorems on several boots assume a flash
-- that does not refuse to save a configuration (`IsWorking`), as the simulated one is shown not to.
-- `strings` is what the pointers given to the log point to. What an uninitialised SHA-256 buffer
-- holds is fixed to zeros in the verifier.
--
-- Loss of power during a save is the driver `cut_driver` of BootConfig/Store/Cut, which programs only
-- so many bytes more; an erase that is interrupted is not modelled.
--
-- What is not modelled. What the parts log, their watchdog kicks and the set-up calls have no effect
-- on the results and are left out of them. Entering recovery is an outcome of the boot,
-- and Recovery is what runs then. The input of the UART is, for the OTA client and the recovery menu,
-- the list of what its calls find: a byte, or nothing before the timeout. The list is finite and silence
-- follows it: a host that sends for ever is not represented, but for the theorem that bytes before a
-- frame are never counted as errors. The buffer of `log_print_uint` is a list without a bound, and
-- widths of formats do not overflow. The host
-- tests and third-party code are not modelled.
pub mod Base
pub mod Crc32
pub mod MemoryMap
pub mod BootConfig
pub mod Flash
pub mod Sha256
pub mod FirmwareFormat
pub mod Crypto
pub mod SharedMemory
pub mod Boot
pub mod DeltaPatch
pub mod OtaClient
pub mod Recovery
pub mod Uart
pub mod Application
pub mod Board
pub mod Example
