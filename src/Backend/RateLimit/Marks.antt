-- ===== src/Backend/RateLimit/Marks.antt =====
-- backend/ratelimit/ratelimit.go and apply.go: the marks of the shaped addresses, and the tc class
-- ids and filter marks that are derived from them.
use Prim.Native.Nat.{bit_and, bit_or}
use hpxnode.Prelude.{
  ℕ, ◌+◌, ◌-◌, ◌*◌, ◌%◌, List, [], ◌∷◌, Option, none, some, String, string_eq, if◌then◌else◌, leb,
}
use hpxnode.Prelude.Dict.{Dict, lookup, insert, delete}

pub data Direction : Type 0 where
  download upload : Direction

abbrev pub first_mark : ℕ
first_mark = 0x00100000

abbrev pub max_clients : ℕ
max_clients = 0xfe

-- The minor number of the class of a mark and a direction, a uint32; the id is "1:" and its hex.
unfoldable pub class_minor : ℕ → Direction → ℕ
class_minor mark download = ((bit_and mark 0xffff + 1) % 0x100000000) * 2 % 0x100000000
class_minor mark upload =
    (((bit_and mark 0xffff + 1) % 0x100000000) * 2 % 0x100000000 + 1) % 0x100000000

unfoldable pub mark_value : ℕ → Direction → ℕ
mark_value mark download = mark
mark_value mark upload = bit_or mark 0x8000

-- The part of the Manager that hands out marks. `freed` has its last element at the head.
pub record Pool : Type 0 where
  pub marks : Dict String ℕ
  pub freed : List ℕ
  pub next_mark : ℕ

abbrev pub new_pool : Pool
new_pool = record { marks = []; freed = []; next_mark = first_mark }

-- A new mark: a freed one if there is any, else the next that was never used. A uint32 wraps.
unfoldable pub fresh_mark : String → Pool → List ℕ → Option (Pool × ℕ)
fresh_mark addr p (mark ∷ freed) =
    some (record p { marks = insert addr mark p.marks; freed = freed }, mark)
fresh_mark addr p [] =
    if leb max_clients ((p.next_mark + 0x100000000 - first_mark) % 0x100000000)
    then none
    else some (
      record p {
        marks = insert addr p.next_mark p.marks;
        next_mark = (p.next_mark + 1) % 0x100000000;
      },
      p.next_mark,
    )

abbrev pub mark_or_fresh : String → Pool → Option ℕ → Option (Pool × ℕ)
mark_or_fresh addr p (some mark) = some (p, mark)
mark_or_fresh addr p none = fresh_mark addr p p.freed

-- `none` is the error "too many shaped clients".
unfoldable pub alloc_mark : String → Pool → Option (Pool × ℕ)
alloc_mark addr p = mark_or_fresh addr p (lookup addr p.marks)

abbrev pub release_found : String → Pool → Option ℕ → Pool
release_found addr p none = p
release_found addr p (some mark) = record p { marks = delete addr p.marks; freed = mark ∷ p.freed }

-- The mark of a departed address goes back to the freed ones.
unfoldable pub release_mark : String → Pool → Pool
release_mark addr p = release_found addr p (lookup addr p.marks)
