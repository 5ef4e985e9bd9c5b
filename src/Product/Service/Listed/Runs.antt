-- ===== src/Product/Service/Listed/Runs.antt =====
-- Runs of the operations that write products.
use goshop_x.Product.Models.{
  product_deleted, product_created, product_updated, ProductReview, ProductMedia, Product,
}
use goshop_x.Product.Service.{
  with_review, is_bad_comment, is_bad_rating, with_media, is_catalog_admin, draft, rewritten,
  admin_delete_product, store, delete_product, update_product, add_review, with_moderation,
  add_media, is_unapproved, set_moderation, post_product, moderate,
}
use goshop_x.Base.{
  bad_comment, bad_rating, trim_space, media_url_required, is_empty, refl, publish, unauthorized,
  eq_ℤ, not_approved, raise_if-IsKept, not, pure-IsKept, >>=-IsKept, false, raise_if, pure, ◌>>=◌,
  ◌≡◌, Fault, ℤ, IsKept, String, Bool,
}
use goshop_x.Product.Service.Listed.{
  delete_document-IsKept, publish-IsKept, put_product-IsKept, update_document-IsKept, store-IsKept,
  get_product_by_id-IsKept, IsModerated, AllModerated, Shop, CatalogLaws,
}
use goshop_x.Product.Tables.{
  delete_document, put_product, update_document, get_product_by_id, Call, Backend,
}

module _ {F : Type 0} (b : Backend F) (laws : CatalogLaws b) where
  -- The operations of the service that write products, but for the update by an administrator.
  pub data Step : Shop b → Shop b → Type 0 where
    by_post :
        (name description : String) (price : F) (account : ℤ) (s : Shop b)
        → Step s (post_product b name description price account s).1
    by_moderation :
        (id publish_status moderation_status reason actor_role : String) (s : Shop b)
        → Step s (set_moderation b id publish_status moderation_status reason actor_role s).1
    by_media :
        (id : String) (media : ProductMedia) (actor_role : String) (s : Shop b)
        → Step s (add_media b id media actor_role s).1
    by_review :
        (id : String) (review : ProductReview) (s : Shop b) → Step s (add_review b id review s).1
    by_owner :
        (id name description : String) (price : F) (account : ℤ) (s : Shop b)
        → Step s (update_product b id name description price account s).1
    by_owner_deletion :
        (id : String) (account : ℤ) (s : Shop b) → Step s (delete_product b id account s).1
    by_deletion :
        (id actor_role : String) (s : Shop b) → Step s (admin_delete_product b id actor_role s).1

  pub data Run : Shop b → Shop b → Type 0 where
    rest : (s : Shop b) → Run s s
    more : (s t u : Shop b) → Step s t → Run t u → Run s u

  guarded_lem :
      {A : Type 0} (c : Bool) (e : Fault) (m : Call F A)
      → (c ≡ false → IsKept (AllModerated b) (λ _. Unit {0}) m)
      → IsKept (AllModerated b) (λ _. Unit {0}) (raise_if c e >>= λ _. m)
  guarded_lem c e m h =
      >>=-IsKept (AllModerated b) (λ _. c ≡ false) (λ _. Unit {0}) (raise_if c e) (λ _. m)
        (raise_if-IsKept (AllModerated b) c e) (λ _ open_gate. h open_gate)

  looked_up_lem :
      {A : Type 0} (id : String) (f : Product F → Call F A)
      → ((p : Product F) → IsModerated b p → IsKept (AllModerated b) (λ _. Unit {0}) (f p))
      → IsKept (AllModerated b) (λ _. Unit {0}) (get_product_by_id b id >>= f)
  looked_up_lem id f h =
      >>=-IsKept (AllModerated b) (IsModerated b) (λ _. Unit {0}) (get_product_by_id b id) f
        (get_product_by_id-IsKept b laws id) h

  then_lem :
      {A B : Type 0} (m : Call F A) (f : A → Call F B)
      → IsKept (AllModerated b) (λ _. Unit {0}) m
      → ((a : A) → IsKept (AllModerated b) (λ _. Unit {0}) (f a))
      → IsKept (AllModerated b) (λ _. Unit {0}) (m >>= f)
  then_lem m f h k = >>=-IsKept (AllModerated b) (λ _. Unit {0}) (λ _. Unit {0}) m f h (λ a _. k a)

  pure_lem : {A : Type 0} (a : A) → IsKept (AllModerated b) (λ _. Unit {0}) (pure a)
  pure_lem a = pure-IsKept (AllModerated b) (λ _. Unit {0}) a tt

  moderate-IsKept :
      (publish_status moderation_status reason : String) (p : Product F)
      → IsKept
          (AllModerated b)
          (λ _. Unit {0})
          (moderate b publish_status moderation_status reason p)
  unfolding moderate
  moderate-IsKept publish_status moderation_status reason p =
      guarded_lem (is_unapproved (with_moderation p publish_status moderation_status reason))
        not_approved (store b (with_moderation p publish_status moderation_status reason))
        (λ good.
          store-IsKept b laws (with_moderation p publish_status moderation_status reason) good)

  -- An owner's update publishes nothing: the product that is written has no status.
  owner_lem :
      (id name description : String) (price : F) (account : ℤ) (p : Product F)
      → IsKept
          (AllModerated b)
          (λ _. Unit {0})
          (raise_if (not (eq_ℤ p.account_id account)) unauthorized >>= λ _.
            update_document b (rewritten b id name description price account) >>= λ _.
            publish (product_updated (rewritten b id name description price account)) >>= λ _.
            pure (rewritten b id name description price account))
  owner_lem id name description price account p =
      let new = rewritten b id name description price account in
      guarded_lem (not (eq_ℤ p.account_id account)) unauthorized
        (update_document b new >>= λ _. publish (product_updated new) >>= λ _. pure new)
        (λ _.
          then_lem (update_document b new) (λ _. publish (product_updated new) >>= λ _. pure new)
            (update_document-IsKept b laws new refl)
            (λ _.
              then_lem (publish (product_updated new)) (λ _. pure new)
                (publish-IsKept b laws (product_updated new)) (λ _. pure_lem new)))

  step_lem : (s t : Shop b) → Step s t → AllModerated b s → AllModerated b t
  unfolding post_product set_moderation add_media add_review update_product delete_product
      admin_delete_product
  step_lem s t (by_post name description price account _) i =
      (then_lem (put_product b (draft b name description price account))
          (λ p. publish (product_created p) >>= λ _. pure p)
          (put_product-IsKept b laws (draft b name description price account) refl)
          (λ p.
            then_lem (publish (product_created p)) (λ _. pure p)
              (publish-IsKept b laws (product_created p)) (λ _. pure_lem p))).stays
        s i
  step_lem s t (by_moderation id publish_status moderation_status reason actor_role _) i =
      (guarded_lem (not (is_catalog_admin actor_role)) unauthorized
          (get_product_by_id b id >>= moderate b publish_status moderation_status reason)
          (λ _.
            looked_up_lem id (moderate b publish_status moderation_status reason)
              (λ p _. moderate-IsKept publish_status moderation_status reason p))).stays
        s i
  step_lem s t (by_media id media actor_role _) i =
      (guarded_lem (not (is_catalog_admin actor_role)) unauthorized
          (raise_if (is_empty media.url) media_url_required >>= λ _.
            get_product_by_id b id >>= λ p. store b (with_media p media))
          (λ _.
            guarded_lem (is_empty media.url) media_url_required
              (get_product_by_id b id >>= λ p. store b (with_media p media))
              (λ _.
                looked_up_lem id (λ p. store b (with_media p media))
                  (λ p good. store-IsKept b laws (with_media p media) good)))).stays
        s i
  step_lem s t (by_review id review _) i =
      let trimmed = record review { comment = trim_space review.comment } in
      (guarded_lem (is_bad_rating review.rating) bad_rating
          (raise_if (is_bad_comment (trim_space review.comment)) bad_comment >>= λ _.
            get_product_by_id b id >>= λ p. store b (with_review b p trimmed))
          (λ _.
            guarded_lem (is_bad_comment (trim_space review.comment)) bad_comment
              (get_product_by_id b id >>= λ p. store b (with_review b p trimmed))
              (λ _.
                looked_up_lem id (λ p. store b (with_review b p trimmed))
                  (λ p good. store-IsKept b laws (with_review b p trimmed) good)))).stays
        s i
  step_lem s t (by_owner id name description price account _) i =
      (looked_up_lem id
          (λ p. raise_if (not (eq_ℤ p.account_id account)) unauthorized >>= λ _.
            update_document b (rewritten b id name description price account) >>= λ _.
            publish (product_updated (rewritten b id name description price account)) >>= λ _.
            pure (rewritten b id name description price account))
          (λ p _. owner_lem id name description price account p)).stays
        s i
  step_lem s t (by_owner_deletion id account _) i =
      (looked_up_lem id
          (λ p. raise_if (not (eq_ℤ p.account_id account)) unauthorized >>= λ _.
            publish (product_deleted p.id) >>= λ _. delete_document b id)
          (λ p _.
            guarded_lem (not (eq_ℤ p.account_id account)) unauthorized
              (publish (product_deleted p.id) >>= λ _. delete_document b id)
              (λ _.
                then_lem (publish (product_deleted p.id)) (λ _. delete_document b id)
                  (publish-IsKept b laws (product_deleted p.id))
                  (λ _. delete_document-IsKept b laws id)))).stays
        s i
  step_lem s t (by_deletion id actor_role _) i =
      (guarded_lem (not (is_catalog_admin actor_role)) unauthorized (delete_document b id)
          (λ _. delete_document-IsKept b laws id)).stays
        s i

  -- No product is published that was not approved: the catalog keeps this through every run of postings,
  -- moderations, media, reviews, owners' updates and deletions, whether or not they go through. The update
  -- by an administrator is not among them.
  pub Run-AllModerated : (s t : Shop b) → Run s t → AllModerated b s → AllModerated b t
  Run-AllModerated s t (rest _) i = i
  Run-AllModerated s t (more _ u _ step run) i = Run-AllModerated u t run (step_lem s u step i)
