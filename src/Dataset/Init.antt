-- ===== src/Dataset/Init.antt =====
-- `randomx_init_dataset` of src/algo/randomx/randomx.cpp and the loop of `initDataset` in dataset.cpp, over a
-- memory of lines: one item is one line.
pub mod Laws
use nminer.Prelude.{ℕ, zero, suc, ◌+◌, ◌-◌, ◌%◌, ◌&&◌, ltb, leb, ◌==◌, if◌then◌else◌}
use nminer.Vm.Machine.{put}

-- `count` rounds of the loop of initDataset, which writes item after item from the line `at` on.
unfoldable pub init_lines {ℓ} : {A : Type ℓ} → (ℕ → A) → ℕ → ℕ → ℕ → (ℕ → A) → ℕ → A
init_lines item zero at start memory = memory
init_lines item (suc count) at start memory =
    init_lines item count (at + 1) (start + 1) (put memory at (item start))

-- initDataset(cache, memory + at * CacheLineSize, start, end)
unfoldable pub init_dataset {ℓ} : {A : Type ℓ} → (ℕ → A) → ℕ → ℕ → ℕ → (ℕ → A) → ℕ → A
unfolding init_lines
init_dataset item at start end memory = init_lines item (end - start) at start memory

-- The memcpy of `count` lines to the line `at`.
unfoldable pub copy_lines {ℓ} : {A : Type ℓ} → ℕ → ℕ → (ℕ → A) → (ℕ → A) → ℕ → A
copy_lines count at from memory k =
    if leb at k && ltb k (at + count) then from (k - at) else memory k

-- `dataset_init` is the cache's pointer, with the line, the first item and the one after the last; `buf` is what
-- the local buffer holds before. The asserts keep the items within the dataset, where no sum wraps.
unfoldable pub randomx_init_dataset {ℓ} :
    {A : Type ℓ} → (ℕ → ℕ → ℕ → (ℕ → A) → ℕ → A) → (ℕ → A) → ℕ → ℕ → (ℕ → A) → ℕ → A
unfolding copy_lines
randomx_init_dataset dataset_init buf start_item item_count memory =
    if ltb item_count 4
    then copy_lines item_count start_item (dataset_init 0 start_item (start_item + 4) buf) memory
    else if item_count % 4 == 0
    then dataset_init start_item start_item (start_item + item_count) memory
    else let front =
        dataset_init start_item start_item (start_item + item_count - item_count % 4) memory in
      let last_item = start_item + (item_count - 4) in
      dataset_init last_item last_item (last_item + 4) front
