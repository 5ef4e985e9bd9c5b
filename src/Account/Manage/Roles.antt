-- ===== src/Account/Manage/Roles.antt =====
-- What a change of role gives.
use goshop_x.Account.Models.{Account}
use goshop_x.Account.Tables.{Tables}
