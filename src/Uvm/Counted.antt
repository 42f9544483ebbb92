-- ===== src/Uvm/Counted.antt =====
-- Any kernel, with a count of the calls that it is asked.
use aim_mips.Prelude.{ℕ, ◌≡◌, refl, if◌then◌else◌, Option, none, some, is_neg, ap, sym}
use aim_mips.Uvm.Calls.{Kernel}
use aim_mips.Uvm.Laws.{
  Seen, more_objects, less_objects, more_bytes, less_bytes, map_page, IsCounted,
}

-- A kernel's answer with the count next to it, or none with nothing counted.
abbrev answered : {S : Type 0} → (Seen → Seen) → Seen → Option (ℕ × S) → Option (ℕ × (S × Seen))
answered more o none = none
answered more o (some (p, s)) = some (p, (s, more o))

-- It does what `k` does, and counts: kmalloc and alloc_pages where they succeed, and map_pages where it
-- answers no error.
abbrev pub counted : {S : Type 0} → Kernel S → Kernel (S × Seen)
counted k = record {
  kmalloc = λ x t. answered more_objects (t.1) (k.kmalloc x (t.0));
  kfree = λ p t. (k.kfree p (t.0), less_objects (t.1));
  alloc_pages = λ n t. answered (more_bytes n) (t.1) (k.alloc_pages n (t.0));
  free_pages = λ pa n t. (k.free_pages pa n (t.0), less_bytes n (t.1));
  init_pgindex = λ t. answered (λ o. o) (t.1) (k.init_pgindex (t.0));
  destroy_pgindex = λ pg t. (k.destroy_pgindex pg (t.0), t.1);
  map_pages = λ pg va pa size flags t.
      let r = k.map_pages pg va pa size flags (t.0) in
      (r.0, (r.1, (if is_neg (r.0) then t.1 else map_page pg va (some (pa, flags)) (t.1))));
  unmap_pages = λ pg va size t.
      let r = k.unmap_pages pg va size (t.0) in (r.0, r.1, (r.2, map_page pg va none (t.1)));
  set_pages_perm =
      λ pg va size flags t. let r = k.set_pages_perm pg va size flags (t.0) in (r.0, (r.1, t.1));
  copy_page = λ dst src size t. (k.copy_page dst src size (t.0), t.1);
}

abbrev pub count_of : {S : Type 0} → S × Seen → Seen
count_of t = t.1

answered-count :
    {S : Type 0} (more : Seen → Seen) (o : Seen) (r : Option (ℕ × S)) (p : ℕ) (t : S × Seen)
    → answered more o r ≡ some (p, t)
    → count_of t ≡ more o
answered-count {S = S} more o none p t e = absurd cc
answered-count {S = S} more o (some (q, s)) p t e =
    let same : Path (S × Seen) (s, more o) t = cc in ap count_of (sym same)

pub counted-IsCounted : {S : Type 0} (k : Kernel S) → IsCounted (counted k) count_of
counted-IsCounted k = record {
  kmalloc = λ x p t t1 e. answered-count more_objects (t.1) (k.kmalloc x (t.0)) p t1 e;
  kfree = λ p t. refl;
  alloc_pages = λ n pa t t1 e. answered-count (more_bytes n) (t.1) (k.alloc_pages n (t.0)) pa t1 e;
  free_pages = λ pa n t. refl;
  map_done = λ pg va pa flags t e. rw e refl;
  map_failed = λ pg va pa flags t e. rw e refl;
  unmap = λ pg va t. refl;
}
