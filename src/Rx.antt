-- ===== src/Rx.antt =====
-- `Rx` of src/algo/randomx/rx.h and rx.cpp, and the worker of rx_worker.cpp that replaces its cache: the
-- cache, the datasets of the NUMA nodes, and the machines made over them. The allocations of memory and
-- the NUMA nodes of the host are arguments.
pub mod Steps
pub mod Current
pub mod Sound
pub mod Safety
pub mod Failure
use nminer.Prelude.{
  ℕ, zero, suc, ◌+◌, ◌-◌, List, [], ◌∷◌, Bool, true, false, not, ◌&&◌, ◌||◌, Option, none, some,
  ltb, ◌==◌, if◌then◌else◌, take,
}
use nminer.Vm.Machine.{put}

pub data RxAlgoVersion : Type 0 where
  v1 v2 : RxAlgoVersion

-- A cache: which of those ever allocated, and the seed that it was filled from.
pub record Cache : Type 0 where
  pub serial : ℕ
  pub seed : List ℕ

-- `RxVm`: the cache and the dataset of its machine. A dataset is known by the cache that it was computed from.
pub record RxVm : Type 0 where
  pub cache : Cache
  pub dataset : Option Cache
  pub version : RxAlgoVersion

-- `fast` is RxMode::Fast; a dataset of `none` is a node that has none. `vms` are the machines that exist.
pub record Rx : Type 0 where
  pub cache : Option Cache
  pub datasets : ℕ → Option Cache
  pub fast : Bool
  pub version : RxAlgoVersion
  pub vms : List RxVm
  pub active_vms : ℕ
  pub pending : ℕ
  pub updating : Bool
  pub allocated : ℕ

pub data AllocateError : Type 0 where
  timed_out no_cache no_dataset : AllocateError

-- `queue_allocate`, once its arguments are a buffer and, if there is one, a known variant.
unfoldable pub queue_allocate : Option RxAlgoVersion → Rx → Rx
queue_allocate none rx = record rx { pending = rx.pending + 1; updating = true }
queue_allocate (some version) rx = record rx {
  pending = rx.pending + 1;
  updating = true;
  version = version;
}

-- The RxVm constructor, over a machine that was created.
unfoldable pub add_vm : Cache → Option Cache → Rx → Rx
add_vm cache dataset rx = record rx {
  vms = (record { cache = cache; dataset = dataset; version = rx.version }) ∷ rx.vms;
  active_vms = rx.active_vms + 1;
}

-- A fast machine needs the dataset of its node.
unfoldable pub fast_vm : Option Cache → Bool → Cache → Rx → Rx × Bool
unfolding add_vm
fast_vm none memory cache rx = (rx, false)
fast_vm (some dataset) memory cache rx =
    if memory then (add_vm cache (some dataset) rx, true) else (rx, false)

unfoldable pub make_vm : ℕ → Bool → Cache → Rx → Rx × Bool
unfolding add_vm fast_vm
make_vm numa_node memory cache rx =
    if rx.fast
    then fast_vm (rx.datasets numa_node) memory cache rx
    else if memory
    then (add_vm cache none rx, true)
    else (rx, false)

unfoldable pub cached_vm : Option Cache → ℕ → Bool → Rx → Rx × Bool
unfolding make_vm
cached_vm none numa_node memory rx = (rx, false)
cached_vm (some cache) numa_node memory rx =
    if rx.updating then (rx, false) else make_vm numa_node memory cache rx

-- `create_vm`, and whether it gave a machine. `memory` is whether the scratchpad and the machine were allocated.
unfoldable pub create_vm : ℕ → Bool → Rx → Rx × Bool
unfolding cached_vm
create_vm numa_node memory rx = cached_vm rx.cache numa_node memory rx

-- `Reserve` and the initialisation of what it gives, for the nodes in order, and whether any node has a dataset.
unfoldable pub build_dataset :
    (ℕ → Bool) → Cache → List ℕ → (ℕ → Option Cache) → (ℕ → Option Cache) × Bool
build_dataset allocates cache [] datasets = (datasets, false)
build_dataset allocates cache (n ∷ rest) datasets =
    let reserved : Bool = elim (datasets n) [ none ↦ allocates n | some _ ↦ true ] in
    let after =
      build_dataset allocates cache rest (put datasets n (if reserved then some cache else none)) in
    (after.0, reserved || after.1)

-- The rest of `AllocateWorker::Execute`, when no machine is active.
unfoldable pub replace_cache : List ℕ → Bool → (ℕ → Bool) → List ℕ → Rx → Rx × Option AllocateError
unfolding build_dataset
replace_cache nodes cache_memory allocates seed_hash rx =
    let cache : Cache = record { serial = rx.allocated; seed = take 32 seed_hash } in
    let released = record rx { cache = none } in
    let filled = record rx { cache = some cache; allocated = rx.allocated + 1 } in
    let built = build_dataset allocates cache nodes rx.datasets in
    if not cache_memory
    then (released, some no_cache)
    else if not rx.fast
    then (filled, none)
    else (record filled { datasets = built.0 }, if built.1 then none else some no_dataset)

-- `AllocateWorker::Execute`, which waits under the lock for the machines; the last look at their count decides.
unfoldable pub execute : List ℕ → Bool → (ℕ → Bool) → List ℕ → Rx → Rx × Option AllocateError
unfolding replace_cache
execute nodes cache_memory allocates seed_hash rx =
    if ltb 0 rx.active_vms
    then (rx, some timed_out)
    else replace_cache nodes cache_memory allocates seed_hash rx

-- `AllocateWorker::Clear`
unfoldable pub clear : Rx → Rx
clear rx = record rx {
  pending = rx.pending - 1;
  updating = if rx.pending == 1 then false else rx.updating;
}

-- The two halves of ~RxVm: the machine at an index is destroyed, and later the count goes down.
unfoldable pub remove {ℓ} : {A : Type ℓ} → ℕ → List A → List A
remove i [] = []
remove zero (x ∷ xs) = xs
remove (suc i) (x ∷ xs) = x ∷ remove i xs

unfoldable pub destroy_vm : ℕ → Rx → Rx
unfolding remove
destroy_vm i rx = record rx { vms = remove i rx.vms }

unfoldable pub uncount_vm : Rx → Rx
uncount_vm rx = record rx { active_vms = rx.active_vms - 1 }
