-- ===== src/Notification/Tests.antt =====
-- A provider that accepts everything, an inbox that is a list, and a file that is named ".json".
use go_project_example.Base.{
  true, false, List, [], ◌∷◌, ◌≡◌, refl, Option, none, some, Bytes, codes, pos, ok,
}
use go_project_example.Text.{bytes_eq}
use go_project_example.Text.Maps.{lookup, insert}
use go_project_example.Effects
use go_project_example.Effects.{return}
use go_project_example.Notification.{
  Notification, NotifData, email_notification, sms_notification, Options, Repos, UserNotification,
}
use go_project_example.Notification.Templates.{Templating}
use go_project_example.Notification.PushTemplates
use go_project_example.Notification.PushTemplates.{
  Parsing, PushMessageTemplateFile, new_push_message_template, parse_files, parse_file, missing,
  execute-new_push_message_template,
}

-- The number of messages that were sent, and the inbox.
abbrev World : Type 0
World = List Bytes × List UserNotification

abbrev repos : Repos World
repos = record {
  save = λ n (sent, inbox). ((sent, n ∷ inbox), Effects.ok tt);
  get = λ id w. (w, Effects.ok []);
  get_detail = λ id notif w. (w, Effects.ok (record { body = []; web_link = [] }));
  push_send = λ m (sent, inbox). ((m.body ∷ sent, inbox), Effects.ok tt);
  sms_send = λ p (sent, inbox). ((p.message ∷ sent, inbox), Effects.ok tt);
}

abbrev notification : NotifData → Notification
notification d = record {
  user_id = pos 7;
  title = codes "title";
  message = codes "code";
  detail_body = [];
  web_link = [];
  notif_data = d;
}

abbrev sms : NotifData
sms = sms_notification (codes "shop") (codes "628111")

abbrev email : NotifData
email = email_notification (codes "a@b.c") []

abbrev keeping : Option Options
keeping = some (record { inbox_save = true; fake = false })

abbrev templating : Templating
templating = record {
  Template = Bytes;
  walk = λ root. record { path = root; name = codes ".json"; is_dir = false; error = none } ∷ [];
  read_file = λ path. ok (codes "code");
  unmarshal = λ out. ok ((codes "otp", out) ∷ []);
  parse = λ text. ok text;
  execute = λ template d. ok template;
}

abbrev parsing : Parsing
parsing = record { Template = Bytes; parse = λ name text. ok text }

abbrev file : PushMessageTemplateFile
file = record { title = []; message = []; message_detail = []; image = []; web_view_link = [] }

execute-new_push_message_template_example :
    PushTemplates.execute parsing
      ((
        codes "otp",
        record { title = []; message = []; message_detail = []; image = []; web_view_link = [] },
      )
        ∷ [])
      (codes "promo")
    ≡ some (missing parsing (codes "promo"))
unfolding new_push_message_template parse_files insert lookup bytes_eq
execute-new_push_message_template_example =
    execute-new_push_message_template parsing ((codes "otp", file) ∷ []) _ (codes "promo") refl
