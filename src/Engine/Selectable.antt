-- ===== src/Engine/Selectable.antt =====
-- engin/selectable_obj.cpp: `selectable_object_it` enters itself in the thread that will call its
-- `select`, and the `create` functions of the classes that inherit from it.
use chroutine.Prelude.{
  ℕ, ◌≡◌, ap, Bool, true, false, Option, none, some, List, [], ◌∷◌, ◌++◌, ◌==◌, if◌then◌else◌,
}
use chroutine.Engine.{
  Engine, get_thread_by_id, register_select_obj, unregister_select_obj, on_named, set_object,
}
use chroutine.Thread

-- `register_to_engin(thread_id)` of the object at `this`, called in the thread `self`: whether the
-- pointer is not null, the engine, and the objects destroyed. A shared pointer that is not returned
-- and that no thread keeps destroys its object.
pub register_to_engin : ℕ → ℕ → ℕ → Engine → Bool × Engine × List ℕ
register_to_engin self this thread_id e =
    let (ok, e') = register_select_obj self this thread_id e in
    (ok, e', if ok then [] else this ∷ [])

pub unregister_from_engin : ℕ → ℕ → ℕ → Engine → Bool × Engine
unregister_from_engin self this thread_id e = unregister_select_obj self this thread_id e

-- The `create` functions: the new object at `this` is registered, and deleted if that fails.
pub create : ℕ → ℕ → ℕ → Engine → Option ℕ × Engine × List ℕ
create self this thread_id e =
    let (ok, e', destroyed) = register_to_engin self this thread_id e in
    if ok then (some this, e', destroyed) else (none, e', destroyed ++ this ∷ [])

-- Where the engine has no thread of the id that is given, or of the caller's for the null id: `create`
-- returns null, changes nothing in the engine, and destroys the new object twice.
pub create-refused :
    (self this thread_id : ℕ) (e : Engine)
    → get_thread_by_id (if thread_id == 0 then self else thread_id) e ≡ none
    → create self this thread_id e ≡ (none, e, this ∷ this ∷ [])
unfolding create register_to_engin register_select_obj on_named
create-refused self this thread_id e missing =
    ap
      (λ (r : Bool × Engine).
        if r.0
        then (some this, r.1, if r.0 then [] else this ∷ [])
        else (none, r.1, (if r.0 then [] else this ∷ []) ++ this ∷ []))
      (ap registered missing)
  where
    registered : Option ℕ → Bool × Engine
    registered found = elim found [
      | none ↦ (false, e)
      | some a ↦ (true, set_object a (Thread.register_selector this (e.objects a)) e)
    ]
