-- ===== src/DataProcessor/Tasks.antt =====
-- What tasks do to the database.
use go_norn.Prelude.{
  ◌≡◌, ◌≢◌, refl, sym, ap, ◌∙◌, ◌⊎◌, inl, inr, Option, none, some, List, [], ◌∷◌, ◌++◌,
  append_assoc, append-nil, Bool-cases,
}
use go_norn.Prelude.Bytes.{Bytes, IsBytes, bytes_eq, bytes_eq→eq, bytes_eq_refl}
use go_norn.DataProcessor.{
  DataTask, TaskType, set, append, other, DataProcessor, Json, insert, key_of, set_data, stored,
  extend, append_data, checked, dispatch, process_task, process_tasks, data_address_key2_db_key,
}
use go_norn.DataProcessor.Keys.{data_address_key2_db_key_injective}

insert_self : (db : Bytes → Option Bytes) (k v : Bytes) → insert db k v k ≡ some v
insert_self db k v = rw (bytes_eq_refl k) refl

insert_other : (db : Bytes → Option Bytes) (k v j : Bytes) → k ≢ j → insert db k v j ≡ db j
insert_other db k v j ne = elim (Bool-cases (bytes_eq k j)) [
  | inl e ↦ absurd (ne (bytes_eq→eq k j e))
  | inr e ↦ rw e refl
]

module _ (json : Json) where
  append_data-extend :
      (dp : DataProcessor) (task : DataTask) (m : json.Map) (ms : List json.Map)
      → json.unmarshal_map task.value ≡ some m
      → stored json (dp.db (key_of task)) ≡ some ms
      → append_data json dp task ≡ extend json dp task (some m) (some ms)
  unfolding append_data
  append_data-extend dp task m ms e s =
      ap (λ o. extend json dp task o (stored json (dp.db (key_of task)))) e
      ∙ ap (extend json dp task (some m)) s

  -- Whatever the task, only the value under its own address and key may change.
  extend-other :
      (dp : DataProcessor) (task : DataTask) (o : Option json.Map) (l : Option (List json.Map))
      (j : Bytes)
      → key_of task ≢ j
      → (extend json dp task o l).db j ≡ dp.db j
  unfolding extend
  extend-other dp task none l j ne = refl
  extend-other dp task (some m) none j ne = refl
  extend-other dp task (some m) (some ms) j ne = insert_other dp.db (key_of task) _ j ne

  dispatch-other :
      (dp : DataProcessor) (task : DataTask) (type : TaskType) (j : Bytes)
      → key_of task ≢ j
      → (dispatch json dp task type).db j ≡ dp.db j
  unfolding dispatch set_data
  dispatch-other dp task set j ne = insert_other dp.db (key_of task) task.value j ne
  dispatch-other dp task append j ne = checked-other (json.unmarshal_map task.value)
    where
      checked-other : (o : Option json.Map) → (checked json dp task o).db j ≡ dp.db j
      checked-other none = refl
      checked-other (some m) =
          extend-other dp task (json.unmarshal_map task.value) (stored json (dp.db (key_of task))) j
            ne
  dispatch-other dp task other j ne = refl

  -- What the appends of maps to one key are.
  abbrev pub Appends : Bytes → Bytes → List DataTask → List json.Map → Type 0
  Appends address key [] [] = Unit
  Appends address key [] (m ∷ ms) = ⊥
  Appends address key (task ∷ tasks) [] = ⊥
  Appends address key (task ∷ tasks) (m ∷ ms) =
      (task.type ≡ append)
      × (task.address ≡ address)
      × (task.key ≡ key)
      × (json.unmarshal_map task.value ≡ some m)
      × Appends address key tasks ms

  process_task-append :
      (dp : DataProcessor) (task : DataTask) (m : json.Map)
      → task.type ≡ append
      → json.unmarshal_map task.value ≡ some m
      → process_task json dp task ≡ append_data json dp task
  unfolding process_task dispatch checked
  process_task-append dp task m t e = ap (dispatch json dp task) t ∙ ap (checked json dp task) e

  append_data-stored :
      (dp : DataProcessor) (task : DataTask) (m : json.Map) (ms : List json.Map)
      → json.unmarshal_map task.value ≡ some m
      → stored json (dp.db (key_of task)) ≡ some ms
      → stored json ((append_data json dp task).db (key_of task)) ≡ some (ms ++ m ∷ [])
  unfolding stored extend
  append_data-stored dp task m ms e s =
      ap (λ (q : DataProcessor). stored json (q.db (key_of task)))
        (append_data-extend dp task m ms e s)
      ∙ ap (stored json) (insert_self dp.db (key_of task) (json.marshal (ms ++ m ∷ [])))
      ∙ json.unmarshal-marshal (ms ++ m ∷ [])

-- An append under a key whose value is no list changes nothing.
append_data-refused :
    (json : Json) (dp : DataProcessor) (task : DataTask) (m : json.Map)
    → json.unmarshal_map task.value ≡ some m
    → stored json (dp.db (key_of task)) ≡ none
    → append_data json dp task ≡ dp
unfolding append_data extend
append_data-refused json dp task m e s =
    ap (λ o. extend json dp task o (stored json (dp.db (key_of task)))) e
    ∙ ap (extend json dp task (some m)) s

set_data-stored :
    (json : Json) (dp : DataProcessor) (task : DataTask)
    → task.type ≡ set
    → (process_task json dp task).db (key_of task) ≡ some task.value
unfolding process_task dispatch set_data
set_data-stored json dp task t =
    ap (λ q. (dispatch json dp task q).db (key_of task)) t
    ∙ insert_self dp.db (key_of task) task.value

-- Where the database holds a list under an address and key, or nothing, which counts as an empty list, a
-- sequence of appended maps leaves the list with these maps behind it, in their order.
pub process_tasks-Appends :
    (json : Json) (dp : DataProcessor) (address key : Bytes) (tasks : List DataTask)
    (ms old : List json.Map)
    → Appends json address key tasks ms
    → stored json (dp.db (data_address_key2_db_key address key)) ≡ some old
    → stored json ((process_tasks json dp tasks).db (data_address_key2_db_key address key))
      ≡ some (old ++ ms)
unfolding process_tasks
process_tasks-Appends json dp address key [] [] old a s = s ∙ ap some (sym (append-nil old))
process_tasks-Appends json dp address key [] (m ∷ ms) old a s = absurd a
process_tasks-Appends json dp address key (task ∷ tasks) [] old a s = absurd a
process_tasks-Appends json dp address key (task ∷ tasks) (m ∷ ms) old (t, ea, ek, e, rest) s =
    let k : key_of task ≡ data_address_key2_db_key address key =
      ap (λ q. data_address_key2_db_key q task.key) ea ∙ ap (data_address_key2_db_key address) ek in
    let one : stored json ((append_data json dp task).db (key_of task)) ≡ some (old ++ m ∷ []) =
      append_data-stored json dp task m old e (ap (λ q. stored json (dp.db q)) k ∙ s) in
    process_tasks-Appends json (process_task json dp task) address key tasks ms (old ++ m ∷ []) rest
      (ap (λ (q : DataProcessor). stored json (q.db (data_address_key2_db_key address key)))
          (process_task-append json dp task m t e)
        ∙ ap (λ q. stored json ((append_data json dp task).db q)) (sym k)
        ∙ one)
    ∙ ap some (append_assoc old (m ∷ []) ms)

-- A task, whatever it is, leaves the value under every other address or key as it is.
pub process_task-other :
    (json : Json) (dp : DataProcessor) (task : DataTask) (address key : Bytes)
    → IsBytes task.address
    → IsBytes address
    → (task.address ≢ address) ⊎ (task.key ≢ key)
    → (process_task json dp task).db (data_address_key2_db_key address key)
      ≡ dp.db (data_address_key2_db_key address key)
unfolding process_task
process_task-other json dp task address key ha hb ne =
    dispatch-other json dp task task.type (data_address_key2_db_key address key) (λ same.
      apart ne
        (data_address_key2_db_key_injective task.address address task.key key [] ha hb same).0)
  where
    apart :
        (task.address ≢ address) ⊎ (task.key ≢ key)
        → (task.address ≡ address) × (task.key ≡ key)
        → ⊥
    apart (inl n) e = n e.0
    apart (inr n) e = n e.1

-- After a set of a value that is not a list, such as the text of a map, every append of a map under its
-- address and key is lost: it changes neither the database nor what is announced.
pub set_data-append_lost :
    (json : Json) (dp : DataProcessor) (first second : DataTask) (m : json.Map)
    → first.type ≡ set
    → json.unmarshal_array first.value ≡ none
    → second.type ≡ append
    → second.address ≡ first.address
    → second.key ≡ first.key
    → json.unmarshal_map second.value ≡ some m
    → process_tasks json dp (first ∷ second ∷ []) ≡ process_tasks json dp (first ∷ [])
unfolding process_tasks stored
set_data-append_lost json dp first second m t1 v t2 ea ek e =
    let dp1 = process_task json dp first in
    let k : key_of second ≡ key_of first =
      ap (λ q. data_address_key2_db_key q second.key) ea
      ∙ ap (data_address_key2_db_key first.address) ek in
    let s : stored json (dp1.db (key_of second)) ≡ none =
      ap (λ q. stored json (dp1.db q)) k
      ∙ ap (stored json) (set_data-stored json dp first t1)
      ∙ v in
    process_task-append json dp1 second m t2 e ∙ append_data-refused json dp1 second m e s
