-- ===== src/Esp.antt =====
-- What the components use of ESP-IDF: error codes, partitions, image states, and the flash as a
-- log of the calls made to it with the answers of an environment. The environment is a parameter:
-- it answers each call as it likes, from all the calls before.
mod Err
mod Flash
pub use Err.*
pub use Flash.{
  Partition, ImageState, new, pending_verify, valid, invalid, aborted, undefined, FlashCall, begin,
  write, end, abort, set_boot, Log, FlashEnv, IsDocumented,
}
unfoldable pub use Flash.{image}
