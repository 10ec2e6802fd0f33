-- ===== src/Mm/Bitmap.antt =====
-- The bitmaps of kernel/mm/pmm.c and kernel/mm/swap.c: one bit for each item,
-- eight to a byte.
mod Bytes
mod Defs
mod Laws
unfoldable pub use Defs.{
  cleared, bitmap_set, bitmap_clear, bitmap_test, first_clear, count_clear, IsBitmap,
}
pub use Laws.*
