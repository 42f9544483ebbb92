-- ===== src/Uvm/Laws.antt =====
-- What is counted of the calls that uvm.c makes, and the areas of create_uvm.
use aim_mips.Prelude.{
  ℕ, suc, ◌+◌, ◌-◌, ◌≤◌, ◌<◌, ◌≡◌, true, false, ◌&&◌, ◌==◌, if◌then◌else◌, Option, none, some, List,
  [], ◌∷◌, is_neg, page_size,
}
use aim_mips.Uvm.Calls.{Object, Kernel}
use aim_mips.Uvm.{Vma, is_pos}

-- How many objects of kmalloc have been taken and not freed, how many bytes of pages, and what was last
-- mapped from an address on, and not unmapped: a physical address and flags.
pub record Seen : Type 0 where
  pub objects : ℕ
  pub bytes : ℕ
  pub page : ℕ → ℕ → Option (ℕ × ℕ)

unfoldable pub more_objects : Seen → Seen
more_objects o = record o { objects = suc o.objects }

unfoldable pub less_objects : Seen → Seen
less_objects o = record o { objects = o.objects - 1 }

unfoldable pub more_bytes : ℕ → Seen → Seen
more_bytes n o = record o { bytes = o.bytes + n }

unfoldable pub less_bytes : ℕ → Seen → Seen
less_bytes n o = record o { bytes = o.bytes - n }

unfoldable pub map_page : ℕ → ℕ → Option (ℕ × ℕ) → Seen → Seen
map_page pg va x o = record o { page = λ p v. if p == pg && v == va then x else o.page p v }

-- `seen` keeps the count of the calls, for pages one at a time.
pub record IsCounted {S : Type 0} (k : Kernel S) (seen : S → Seen) : Type 0 where
  pub kmalloc :
      (x : Object) (p : ℕ) (s s1 : S)
      → k.kmalloc x s ≡ some (p, s1)
      → seen s1 ≡ more_objects (seen s)
  pub kfree : (p : ℕ) (s : S) → seen (k.kfree p s) ≡ less_objects (seen s)
  pub alloc_pages :
      (n pa : ℕ) (s s1 : S) → k.alloc_pages n s ≡ some (pa, s1) → seen s1 ≡ more_bytes n (seen s)
  pub free_pages : (pa n : ℕ) (s : S) → seen (k.free_pages pa n s) ≡ less_bytes n (seen s)
  pub map_done :
      (pg va pa flags : ℕ) (s : S)
      → is_neg ((k.map_pages pg va pa page_size flags s).0) ≡ false
      → seen ((k.map_pages pg va pa page_size flags s).1)
        ≡ map_page pg va (some (pa, flags)) (seen s)
  pub map_failed :
      (pg va pa flags : ℕ) (s : S)
      → is_neg ((k.map_pages pg va pa page_size flags s).0) ≡ true
      → seen ((k.map_pages pg va pa page_size flags s).1) ≡ seen s
  pub unmap :
      (pg va : ℕ) (s : S)
      → seen ((k.unmap_pages pg va page_size s).2) ≡ map_page pg va none (seen s)

-- At some page from `lo` on that is mapped, unmap_pages has not answered the size of a page, which uvm.c
-- asserts.
pub record IsShort {S : Type 0} (k : Kernel S) (seen : S → Seen) (pg lo : ℕ) : Type 0 where
  pub va : ℕ
  pub above : lo ≤ va
  pub state : S
  pub entry : ℕ × ℕ
  pub mapped : (seen state).page pg va ≡ some entry
  pub short : is_pos ((k.unmap_pages pg va page_size state).0) page_size ≡ false

-- The state with one more area, and with all of a list.
unfoldable pub entered : ℕ → Vma → Seen → Seen
entered pg v o =
    map_page pg v.start (some (v.pages.paddr, v.flags))
      (more_bytes page_size (more_objects (more_objects o)))

unfoldable pub entered_all : ℕ → List Vma → Seen → Seen
entered_all pg [] o = o
entered_all pg (v ∷ vs) o = entered_all pg vs (entered pg v o)

-- The area of one page at `va` that create_uvm makes.
pub record IsPage (va : ℕ) (v : Vma) : Type 0 where
  pub start : v.start ≡ va
  pub size : v.size ≡ page_size
  pub held : v.pages.size ≡ page_size
  pub refs : v.pages.refs ≡ 1

-- Pages side by side from `va` on.
unfoldable pub IsRun : ℕ → List Vma → Type 0
IsRun va [] = Unit
IsRun va (v ∷ vs) = IsPage va v × IsRun (va + page_size) vs

-- None of the `n` bytes from `va` on is mapped.
abbrev pub IsFree : ℕ → ℕ → ℕ → Seen → Type 0
IsFree pg va n o = (x : ℕ) → va ≤ x → x < va + n → o.page pg x ≡ none

-- States that look the same are the same.
pub seen_ext :
    (a b : Seen)
    → a.objects ≡ b.objects
    → a.bytes ≡ b.bytes
    → ((p v : ℕ) → a.page p v ≡ b.page p v)
    → a ≡ b
seen_ext a b e f h = λ i. record { objects = e i; bytes = f i; page = λ p v. h p v i }
