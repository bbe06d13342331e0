-- ===== src/FileNotifier/Cached.antt =====
-- What holds of the cache of an index root between two calls.
use tracker_miners.Base.{
  ℕ, ◌-◌, ◌≡◌, refl, sym, ap, ◌∙◌, subst, Bool, true, false, Option, none, some, List, [], ◌∷◌, inl,
  inr, arith, is_some, count, if◌then◌else◌, Bool-cases, Eq, ◌==◌, ==_refl, Table, lookup, insert,
  lookup-remove_key, lookup-insert,
}
use tracker_miners.Base.Files.{FileOps, file_Eq}
use tracker_miners.FileNotifier.{
  FileInfo, Surroundings, FileData, IndexRoot, new_data, ensured, ensure_file_data, write_data,
  delete_link, free_data, update_state, insert_disk_info, insert_store_info,
}

abbrev pub bit : Bool → ℕ
bit b = if b then 1 else 0

module _ {File : Type 0} ⦃ops : FileOps File⦄ where
  count-delete_link :
      (f g : File) (l : List File)
      → count (λ x. x == g) (delete_link f l) ≡ count (λ x. x == g) l - bit (f == g)
  unfolding delete_link
  count-delete_link f g [] = ground arith
  count-delete_link f g (x ∷ l) = ground (
    arith,
    count-delete_link f g l,
    ops.eq.same_iff x f,
    ops.eq.same_iff x g,
    ops.eq.same_iff f g,
  )

module _ {File Name : Type 0} ⦃ops : FileOps File⦄ ⦃names : Eq Name⦄ where
  abbrev pub IsOwn : Table File (FileData File Name) → Type 0
  IsOwn cache = (f : File) (d : FileData File Name) → lookup f cache ≡ some d → d.file ≡ f

  -- The queue has each file of the cache once and no other, and data are cached under their file.
  pub record IsCached (r : IndexRoot File Name) : Type 0 where
    pub queued : (f : File) → count (λ g. g == f) r.queue ≡ bit (is_some (lookup f r.cache))
    pub own : IsOwn r.cache

  -- `s` is `r` after work on its files.
  pub record IsNext (r s : IndexRoot File Name) : Type 0 where
    pub cached : IsCached s
    pub id : s.id ≡ r.id
    pub idle : s.idle ≡ r.idle
    pub has_cursor : s.has_cursor ≡ r.has_cursor
    pub cancelled : s.cancelled ≡ r.cancelled

  pub IsNext-refl : (r : IndexRoot File Name) → IsCached r → IsNext r r
  IsNext-refl r h = record {
    cached = h;
    id = refl;
    idle = refl;
    has_cursor = refl;
    cancelled = refl;
  }

  pub IsNext-trans : (r s t : IndexRoot File Name) → IsNext r s → IsNext s t → IsNext r t
  IsNext-trans r s t h k = record {
    cached = k.cached;
    id = k.id ∙ h.id;
    idle = k.idle ∙ h.idle;
    has_cursor = k.has_cursor ∙ h.has_cursor;
    cancelled = k.cancelled ∙ h.cancelled;
  }

  -- a change of none of the fields that these predicates read
  pub IsNext-same :
      (r s : IndexRoot File Name)
      → s.cache ≡ r.cache
      → s.queue ≡ r.queue
      → s.id ≡ r.id
      → s.idle ≡ r.idle
      → s.has_cursor ≡ r.has_cursor
      → s.cancelled ≡ r.cancelled
      → IsCached r
      → IsNext r s
  IsNext-same r s cache queue id idle has_cursor cancelled h = record {
    cached = record {
      queued = λ f.
          ap (count (λ g. g == f)) queue
          ∙ h.queued f
          ∙ ap (λ c. bit (is_some (lookup f c))) (sym cache);
      own = subst IsOwn (sym cache) h.own;
    };
    id = id;
    idle = idle;
    has_cursor = has_cursor;
    cancelled = cancelled;
  }

  pub IsNext-if :
      (b : Bool) (r s t : IndexRoot File Name)
      → IsNext r s
      → IsNext r t
      → IsNext r (if b then s else t)
  IsNext-if true r s t h k = h
  IsNext-if false r s t h k = k

  pub IsNext-if_fst :
      {A : Type 0} (b : Bool) (r : IndexRoot File Name) (s t : IndexRoot File Name × A)
      → IsNext r s.0
      → IsNext r t.0
      → IsNext r (if b then s else t).0
  IsNext-if_fst true r s t h k = h
  IsNext-if_fst false r s t h k = k

  insert-IsOwn :
      (f : File) (d : FileData File Name) (cache : Table File (FileData File Name))
      → d.file ≡ f
      → IsOwn cache
      → IsOwn (insert f d cache)
  insert-IsOwn f d cache e h g x l = elim (Bool-cases (f == g)) [
    | inl same ↦ ground (arith, l, lookup-insert f g d cache, same, e, ops.eq.same_iff f g)
    | inr other ↦ h g x (ground (arith, l, lookup-insert f g d cache, other))
  ]

  ensured-IsNext :
      (o : Option (FileData File Name)) (r : IndexRoot File Name) (f : File)
      → lookup f r.cache ≡ o
      → IsCached r
      → IsNext r (ensured o r f).1 × (lookup f (ensured o r f).1.cache ≡ some (ensured o r f).0)
  ensured-IsNext (some d) r f e h = (IsNext-refl r h, e)
  ensured-IsNext none r f e h = (
    record {
      cached = record {
        queued = λ g.
            ground
              (arith, e, h.queued g, lookup-insert f g (new_data f) r.cache, ops.eq.same_iff f g);
        own = insert-IsOwn f (new_data f) r.cache refl h.own;
      };
      id = refl;
      idle = refl;
      has_cursor = refl;
      cancelled = refl;
    },
    ground (arith, lookup-insert f f (new_data f) r.cache, ==_refl f),
  )

  ensure-IsNext :
      (r : IndexRoot File Name) (f : File)
      → IsCached r
      → IsNext r (ensure_file_data r f).1
        × (lookup f (ensure_file_data r f).1.cache ≡ some (ensure_file_data r f).0)
  unfolding ensure_file_data
  ensure-IsNext r f h = ensured-IsNext (lookup f r.cache) r f refl h

  write-IsNext :
      (f : File) (d e : FileData File Name) (r : IndexRoot File Name)
      → lookup f r.cache ≡ some d
      → e.file ≡ f
      → IsCached r
      → IsNext r (write_data f e r)
  write-IsNext f d e r l same h = record {
    cached = record {
      queued = λ g. ground (arith, l, h.queued g, lookup-insert f g e r.cache, ops.eq.same_iff f g);
      own = insert-IsOwn f e r.cache same h.own;
    };
    id = refl;
    idle = refl;
    has_cursor = refl;
    cancelled = refl;
  }

  -- a change of the data of a file, with the data that are made for it where there are none
  changed-IsNext :
      (change : FileData File Name → FileData File Name) (r : IndexRoot File Name) (f : File)
      → ((d : FileData File Name) → (change d).file ≡ d.file)
      → IsCached r
      → IsNext r (write_data f (change (ensure_file_data r f).0) (ensure_file_data r f).1)
        × ((change (ensure_file_data r f).0).file ≡ f)
  changed-IsNext change r f same h =
      let (next, l) = ensure-IsNext r f h in
      let d = (ensure_file_data r f).0 in
      let s = (ensure_file_data r f).1 in
      let at : (change d).file ≡ f = same d ∙ next.cached.own f d l in
      (
        IsNext-trans r s (write_data f (change d) s) next
            (write-IsNext f d (change d) s l at next.cached),
        at,
      )

  pub disk_info-IsNext :
      (env : Surroundings File Name) (r : IndexRoot File Name) (f : File) (info : FileInfo)
      → IsCached r
      → IsNext r (insert_disk_info env r f info).1 × ((insert_disk_info env r f info).0.file ≡ f)
  unfolding insert_disk_info
  disk_info-IsNext env r f info h =
      changed-IsNext
        (λ d. update_state env (record d {
          in_disk = true;
          is_dir_in_disk = info.is_directory;
          disk_mtime = info.mtime;
        }))
        r f (λ d. refl) h

  pub store_info-IsNext :
      (env : Surroundings File Name) (r : IndexRoot File Name) (f : File) (folder : Bool)
      (hash mimetype : Option Name) (mtime : ℕ)
      → IsCached r
      → IsNext r (insert_store_info env r f folder hash mimetype mtime).1
        × ((insert_store_info env r f folder hash mimetype mtime).0.file ≡ f)
  unfolding insert_store_info
  store_info-IsNext env r f folder hash mimetype mtime h =
      changed-IsNext
        (λ d. update_state env (record d {
          in_store = true;
          is_dir_in_store = folder;
          extractor_hash = hash;
          mimetype = mimetype;
          store_mtime = mtime;
        }))
        r f (λ d. refl) h

  pub free_data-IsNext :
      (f : File) (r : IndexRoot File Name) → IsCached r → IsNext r (free_data f r)
  unfolding free_data
  free_data-IsNext f r h = record {
    cached = record {
      queued = λ g.
          ground (arith, h.queued g, lookup-remove_key f g r.cache, count-delete_link f g r.queue);
      own = λ g d l. h.own g d (ground (arith, l, lookup-remove_key f g r.cache));
    };
    id = refl;
    idle = refl;
    has_cursor = refl;
    cancelled = refl;
  }
