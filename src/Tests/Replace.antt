-- ===== src/Tests/Replace.antt =====
-- misc.c `strnrepl`: replacements, and more of them than the buffer holds.
use k9_chatnet.Common.{ℕ, ◌+◌, ◌*◌, ◌<◌, ◌≡◌, ◌≢◌, refl, true, false, Bytes, arith, codes, length}
use k9_chatnet.Text.Replace.{
  after_prefix, repl_loop, is_full, strnrepl, out_of_fuel, outside, ends, Replaced,
  strnrepl-Replaced,
}

strnrepl-Replaced_example :
    (strnrepl (codes "%a, %A") 256 (codes "%a") (codes "Wed") ≢ out_of_fuel)
    × (is_full 256 (codes "%a") (codes "Wed") (codes "%a, %A") ≡ true
        → strnrepl (codes "%a, %A") 256 (codes "%a") (codes "Wed") ≡ ends (codes "%a, %A"))
    × (is_full 256 (codes "%a") (codes "Wed") (codes "%a, %A") ≡ false
        → (k : ℕ) × (out : Bytes) × Replaced (codes "%a") (codes "Wed") k (codes "%a, %A") out
          × (length out + k * length (codes "%a")
              ≡ length (codes "%a, %A") + k * length (codes "Wed"))
          × (length (codes "%a, %A") + length (codes "%a") < 256
              → length out + length (codes "%a") < 256
              → strnrepl (codes "%a, %A") 256 (codes "%a") (codes "Wed") ≡ ends out))
strnrepl-Replaced_example =
    strnrepl-Replaced (codes "%a, %A") 256 (codes "%a") (codes "Wed") (omega arith)

strnrepl_wed : strnrepl (codes "%a, %A") 256 (codes "%a") (codes "Wed") ≡ ends (codes "Wed, %A")
unfolding strnrepl repl_loop after_prefix
strnrepl_wed = refl

-- Room for one replacement, where the code makes all three.
strnrepl_outside : strnrepl (codes "aaa") 6 (codes "a") (codes "bb") ≡ outside
unfolding strnrepl repl_loop after_prefix
strnrepl_outside = refl

strnrepl_full : strnrepl (codes "aaa") 4 (codes "a") (codes "bb") ≡ ends (codes "aaa")
unfolding strnrepl repl_loop after_prefix
strnrepl_full = refl
