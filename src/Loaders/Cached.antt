-- ===== src/Loaders/Cached.antt =====
-- What the cache of a `Loader` answers.
use jcsapitest.Prelude.{
  String, ◌≡◌, refl, ◌∙◌, inl, inr, Option, none, some, Dict, get, get-put, eq_refl, Option-cases,
  Result, ok, raise, ok-inj,
}
use jcsapitest.Value.{Value, list}
use jcsapitest.Text.Sorted.{sorted_texts}
use jcsapitest.Loaders.{
  Files, cachable, keep, load_data, load_service_model, list_available_services, load_from,
  get_search_paths, service_key, service_names, texts,
}

module _ (files : Files) (root : String) where
  cachable-hit :
      (cache : Dict Value) (key : String) (called : Result Value) (v : Value)
      → get key cache ≡ some v
      → cachable files root cache key called ≡ (cache, ok v)
  unfolding cachable
  cachable-hit cache key called v there = rw (cachable, there) refl

  cachable-kept :
      (cache : Dict Value) (key : String) (called : Result Value) (v : Value)
      → (cachable files root cache key called).1 ≡ ok v
      → get key (cachable files root cache key called).0 ≡ some v
  unfolding cachable
  cachable-kept cache key called v returned = elim (Option-cases (get key cache)) [
    | inl missing ↦
        let first = rw (cachable, missing) at returned in rw (cachable, missing) (kept called first)
    | inr (w, there) ↦
        let same = rw (cachable, there) at returned in
        rw (cachable, there) (rw (ok-inj same) at there)
  ]
    where
      kept :
          (called : Result Value)
          → (keep files root cache key called).1 ≡ ok v
          → get key (keep files root cache key called).0 ≡ some v
      kept (ok w) e = get-put key key w cache ∙ rw (eq_refl key, ok-inj e) refl
      kept (raise x) e = cc

module _ (files later : Files) (root root' : String) (search_path search_path' : Option String)
    (cache : Dict Value) (data_path : String) (v : Value) where
  -- What `load_data` returned for a name it returns again, whatever became of the files and of the search path.
  -- The methods share the cache: without an API version, `load_service_model` and
  -- `list_available_services` also return that value for the name, and not a model or a list of services.
  pub load_data-shared :
      (load_data files root search_path cache data_path).1 ≡ ok v
      → (load_data later root' search_path'
            (load_data files root search_path cache data_path).0
            data_path
          ≡ ((load_data files root search_path cache data_path).0, ok v))
        × (load_service_model later root' search_path'
              (load_data files root search_path cache data_path).0
              data_path
              none
            ≡ ((load_data files root search_path cache data_path).0, ok v))
        × (list_available_services later root' search_path'
              (load_data files root search_path cache data_path).0
              data_path
            ≡ ((load_data files root search_path cache data_path).0, ok v))
  unfolding load_data load_service_model list_available_services service_key
  load_data-shared returned =
      let kept =
        cachable-kept files root cache data_path
          (load_from files root data_path (get_search_paths files root search_path)) v returned in
      (
        cachable-hit later root' _ data_path _ v kept,
        cachable-hit later root' _ data_path _ v kept,
        cachable-hit later root' _ data_path
            (ok (
              list (
                texts later root' (
                  sorted_texts (
                    service_names later root' data_path
                      (get_search_paths later root' search_path'))))))
            v kept,
      )
