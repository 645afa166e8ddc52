-- ===== src/Domain/Template.antt =====
-- internal/domain/template.go
use event_driven_notificatio.Prelude.{String, Bool, true, Option, List, []}
use event_driven_notificatio.Domain.Notification.{Uuid, Time, Channel}

pub record TemplateVariable : Type 0 where
  pub name : String
  pub required : Bool
  pub default : Option String

pub record Template : Type 0 where
  pub id : Uuid
  pub name : String
  pub channel : Channel
  pub subject : String
  pub content : String
  pub variables : List TemplateVariable
  pub active : Bool
  pub created_at : Time
  pub updated_at : Time

-- NewTemplate
unfoldable pub new_template : Uuid → Time → String → Channel → String → Template
new_template id now name channel content = record {
  id = id;
  name = name;
  channel = channel;
  subject = "";
  content = content;
  variables = [];
  active = true;
  created_at = now;
  updated_at = now;
}
