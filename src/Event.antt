-- ===== src/Event.antt =====
-- src/event/event.consumer.ts: what the service does with the messages about changes.
pub mod Effects
pub mod Entries
pub mod Creation
use generic_iam.Prelude.{
  Text, lit, Bool, true, false, ◌&&◌, Option, none, some, List, [], ◌∷◌, truthy, text_or,
}
use generic_iam.Env.{Env}
use generic_iam.App.{App, Done, World, BaseEvent, Emitted, pure, ◌>>=◌, ◌>>◌}
use generic_iam.Constants.{
  Topic, iam_audit, iam_permission_changed, iam_user_changed, iam_role_changed, iam_acl_changed,
}
use generic_iam.Json.{Json, null, text, number, boolean, object, value_of}
use generic_iam.Cache.{
  invalidate_acl_cache, invalidate_authz_decision, invalidate_user_permission_cache,
  invalidate_tenant_permission_cache,
}

pub record PermissionChangedEvent : Type 0 where
  pub tenant_id : Option Text
  pub user_id : Option Text
  pub payload_tenant_id : Option Text
  pub payload_user_id : Option Text

pub record UserChangedEvent : Type 0 where
  pub tenant_id : Option Text
  pub user_id : Option Text

pub record AclChangedEvent : Type 0 where
  pub tenant_id : Option Text
  pub user_id : Option Text
  pub resource_type : Option Text
  pub resource_id : Option Text
  pub payload_permission : Option Text

-- The fields of a message as the handlers read them.
abbrev text_value : Option Json → Option Text
text_value none = none
text_value (some null) = none
text_value (some (text t)) = some t
text_value (some (number n)) = none
text_value (some (boolean b)) = none
text_value (some (object o)) = none

abbrev pub acl_message : BaseEvent → AclChangedEvent
acl_message e = record {
  tenant_id = e.tenant_id;
  user_id = e.user_id;
  resource_type = e.resource_type;
  resource_id = e.resource_id;
  payload_permission = text_value (value_of (lit "permission") e.payload);
}

abbrev permission_message : BaseEvent → PermissionChangedEvent
permission_message e = record {
  tenant_id = e.tenant_id;
  user_id = e.user_id;
  payload_tenant_id = text_value (value_of (lit "tenant_id") e.payload);
  payload_user_id = text_value (value_of (lit "user_id") e.payload);
}

-- A text that is truthy, or the empty text.
abbrev pub filled : Option Text → Text
filled o = text_or o []

-- `a || b` on texts that may be missing
abbrev or_else : Option Text → Option Text → Text
or_else a b = text_or a (filled b)

module _ ⦃env : Env⦄ where
  abbrev on_user : Text → Text → App Done
  on_user [] user = pure tt
  on_user (t ∷ ts) [] = pure tt
  on_user (t ∷ ts) (u ∷ us) = invalidate_user_permission_cache (t ∷ ts) (u ∷ us)

  unfoldable pub handle_user_changed : UserChangedEvent → App Done
  handle_user_changed message = on_user (filled message.tenant_id) (filled message.user_id)

  abbrev on_acl : Bool → Text → Text → Text → Text → Text → App Done
  on_acl false tenant user type id permission = pure tt
  on_acl true tenant user type id permission = do
    invalidate_acl_cache tenant user type id permission
    invalidate_authz_decision tenant user permission type id

  unfoldable pub handle_acl_changed : AclChangedEvent → App Done
  handle_acl_changed m =
      on_acl
        (truthy m.tenant_id
          && truthy m.user_id
          && truthy m.resource_type
          && truthy m.resource_id
          && truthy m.payload_permission)
        (filled m.tenant_id) (filled m.user_id) (filled m.resource_type) (filled m.resource_id)
        (filled m.payload_permission)

  abbrev on_permission : Text → Text → App Done
  on_permission [] user = pure tt
  on_permission (t ∷ ts) [] = invalidate_tenant_permission_cache (t ∷ ts)
  on_permission (t ∷ ts) (u ∷ us) = invalidate_user_permission_cache (t ∷ ts) (u ∷ us)

  unfoldable pub handle_permission_changed : PermissionChangedEvent → App Done
  handle_permission_changed message =
      on_permission (or_else message.tenant_id message.payload_tenant_id)
        (or_else message.user_id message.payload_user_id)

  -- The topics that the consumer subscribes to by `@EventPattern`.
  unfoldable pub on_message : Topic → BaseEvent → App Done
  unfolding value_of handle_user_changed handle_acl_changed handle_permission_changed
  on_message iam_audit e = pure tt
  on_message iam_role_changed e = pure tt
  on_message iam_user_changed e =
      handle_user_changed (record { tenant_id = e.tenant_id; user_id = e.user_id })
  on_message iam_acl_changed e = handle_acl_changed (acl_message e)
  on_message iam_permission_changed e = handle_permission_changed (permission_message e)

  -- The messages arrive in the order in which they were sent; an exception of a handler ends with it.
  unfoldable pub receive : List Emitted → World → World
  receive [] w = w
  receive (m ∷ ms) w = receive ms (on_message m.topic m.event w).1
