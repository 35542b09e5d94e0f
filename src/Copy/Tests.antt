-- ===== src/Copy/Tests.antt =====
-- A concrete copy.
use image_proxy.Base.{ℕ, ◌≡◌, refl, some, [], ◌++◌, arith, length, take, drop, Bytes, codes}
use image_proxy.Copy.{copy_to, copy_loop, Copied}
use image_proxy.Copy.Streams.{Reader, Writer}
use image_proxy.Copy.Whole.{CopiedAll, copy_to-CopiedAll}

-- The input is the text that is left, the output the text so far.
abbrev text_read : Bytes → ℕ → Bytes × Bytes
text_read s n = (drop n s, take n s)

abbrev text_write : Bytes → Bytes → Bytes × ℕ
text_write t x = (t ++ x, length x)

abbrev text_reader : Reader Bytes text_read
text_reader = record { rest = λ s. s; read_next = λ s n. refl; read_rest = λ s n. refl }

abbrev text_writer : Writer Bytes text_write
text_writer = record { written_text = λ t. t; write_count = λ t x. refl; write_text = λ t x. refl }

-- An output that takes two bytes of each write.
copy_short_run :
    copy_to text_read (λ t x. (t ++ take 2 x, 2)) 5 (codes "abcde") [] 4
    ≡ some (record { input = codes "e"; output = codes "ab"; total_written = 2 })
unfolding copy_to copy_loop
copy_short_run = refl

copy_to-CopiedAll_example :
    (c : Copied Bytes Bytes) × (copy_to text_read text_write 6 (codes "abcde") [] 4 ≡ some c)
    × CopiedAll text_reader text_writer 4 (codes "abcde") [] 0 c
copy_to-CopiedAll_example =
    copy_to-CopiedAll text_reader text_writer 6 (codes "abcde") [] 4 (omega arith)
