-- ===== src/Pager/Allocate/Fields.antt =====
-- What page 1 says of the freelist, and the steps of `allocate_page` and `deallocate_page` from it.
use db_storage.Prelude.{ℕ, ◌-◌, ◌≡◌, refl, ◌∙◌, List, arith}
use db_storage.Prelude.{ok, ◌>>=◌, ◌==◌, true, false}
use db_storage.Prelude.{IsU32, sat_add32}
use db_storage.Freelist.{read_u32, TrunkPage, parse}
use db_storage.Pager.{Pager}
use db_storage.Pager.Allocate.{read_dirty_page, with_page, set_freelist, pop, take_leaf}
use db_storage.Pager.Allocate.{allocate_page, deallocate_page, push_trunk, push_page}
use db_storage.Pager.Allocate.Patch.{patched, IsHeader, read-with_page_self, read-with_page_ne}
use db_storage.Pager.Allocate.Patch.{
  length-patched, page_count-patched, trunk-patched, count-patched, set_freelist-patched,
}

-- What page 1 says: the page count, the first trunk page and the number of free pages.
pub record HasFreelist (p : Pager) (page_count trunk_page free_count : ℕ) : Type 0 where
  pub header : List ℕ
  pub first_page : read_dirty_page p 1 ≡ ok header
  pub long : IsHeader header
  pub counted : read_u32 header 28 ≡ ok page_count
  pub trunk_is : read_u32 header 32 ≡ ok trunk_page
  pub free_is : read_u32 header 36 ≡ ok free_count

-- Setting the freelist on a pager that has another.
pub set-HasFreelist :
    (p : Pager) (page_count old_trunk old_count trunk_page free_count : ℕ)
    → HasFreelist p page_count old_trunk old_count
    → IsU32 trunk_page
    → IsU32 free_count
    → (q : Pager) × (set_freelist p trunk_page free_count ≡ ok q)
      × HasFreelist q page_count trunk_page free_count
      × ((k : ℕ) → (1 == k) ≡ false → read_dirty_page q k ≡ read_dirty_page p k)
set-HasFreelist p page_count old_trunk old_count trunk_page free_count f fits small =
    let header = f.header in
    let long = f.long in
    let next = patched header trunk_page free_count in
    let size = length-patched header trunk_page free_count long in
    (
      with_page p 1 next,
      set_freelist-patched header trunk_page free_count long p f.first_page,
      record {
        header = next;
        first_page = read-with_page_self p 1 next;
        long = (omega (arith, long, size), omega (arith, long, size));
        counted = page_count-patched header trunk_page free_count long ∙ f.counted;
        trunk_is = trunk-patched header trunk_page free_count long fits;
        free_is = count-patched header trunk_page free_count long small;
      },
      λ k apart. read-with_page_ne p 1 next k apart,
    )

-- A page other than the first does not change what the first says.
pub with_page-HasFreelist :
    (p : Pager) (n : ℕ) (bytes : List ℕ) (page_count trunk_page free_count : ℕ)
    → (n == 1) ≡ false
    → HasFreelist p page_count trunk_page free_count
    → HasFreelist (with_page p n bytes) page_count trunk_page free_count
with_page-HasFreelist p n bytes page_count trunk_page free_count other f = record {
  header = f.header;
  first_page = read-with_page_ne p n bytes 1 other ∙ f.first_page;
  long = f.long;
  counted = f.counted;
  trunk_is = f.trunk_is;
  free_is = f.free_is;
}

pub allocate_page-trunk :
    (q : Pager) (page_count trunk_page free_count : ℕ) (bytes : List ℕ) (trunk : TrunkPage)
    → HasFreelist q page_count trunk_page free_count
    → (trunk_page == 0) ≡ false
    → read_dirty_page q trunk_page ≡ ok bytes
    → parse bytes ≡ ok trunk
    → allocate_page q ≡ (
        take_leaf q trunk_page trunk (pop trunk.leaves) >>= λ taken.
        set_freelist taken.0 taken.2 (free_count - 1) >>= λ r. ok (taken.1, r))
unfolding allocate_page
allocate_page-trunk q page_count trunk_page free_count bytes trunk f some_ read parsed =
    rw (allocate_page, f.first_page, f.counted, f.trunk_is, f.free_is, some_, read, parsed) refl

pub deallocate_page-first :
    (p : Pager) (n page_count trunk_page free_count : ℕ)
    → HasFreelist p page_count trunk_page free_count
    → (trunk_page == 0) ≡ true
    → deallocate_page p n
      ≡ (push_trunk p n 0 >>= λ pushed. set_freelist pushed.0 pushed.1 (sat_add32 free_count 1))
unfolding deallocate_page
deallocate_page-first p n page_count trunk_page free_count f none_ =
    rw (deallocate_page, f.first_page, f.trunk_is, f.free_is, none_) refl

pub deallocate_page-more :
    (p : Pager) (n page_count trunk_page free_count : ℕ) (bytes : List ℕ) (trunk : TrunkPage)
    → HasFreelist p page_count trunk_page free_count
    → (trunk_page == 0) ≡ false
    → read_dirty_page p trunk_page ≡ ok bytes
    → parse bytes ≡ ok trunk
    → deallocate_page p n ≡ (
        push_page p n trunk_page trunk >>= λ pushed.
        set_freelist pushed.0 pushed.1 (sat_add32 free_count 1))
unfolding deallocate_page
deallocate_page-more p n page_count trunk_page free_count bytes trunk f some_ read parsed =
    rw (deallocate_page, f.first_page, f.trunk_is, f.free_is, some_, read, parsed) refl
