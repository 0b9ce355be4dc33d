-- ===== src/Codecs/Key.antt =====
-- The keys of the JSON objects, numbered. The key `id` is the one that `__eq__` of Identifiable reads.
use cpy_q.Prelude.{ℕ}
use cpy_q.Codecs.{id_key}

abbrev pub id : ℕ
id = id_key

abbrev pub kind : ℕ
kind = 1

abbrev pub sort : ℕ
sort = 2

abbrev pub type : ℕ
type = 3

abbrev pub scope : ℕ
scope = 4

abbrev pub name : ℕ
name = 5

abbrev pub hierarchy_index : ℕ
hierarchy_index = 6

abbrev pub company : ℕ
company = 7

abbrev pub permissions : ℕ
permissions = 8

abbrev pub username : ℕ
username = 9

abbrev pub display_name : ℕ
display_name = 10

abbrev pub teams : ℕ
teams = 11

abbrev pub email : ℕ
email = 12

abbrev pub autopilot : ℕ
autopilot = 13

abbrev pub admin : ℕ
admin = 14

abbrev pub user : ℕ
user = 15

abbrev pub state : ℕ
state = 16

abbrev pub resource_id : ℕ
resource_id = 17

abbrev pub access : ℕ
access = 18

abbrev pub refresh : ℕ
refresh = 19

abbrev pub access_expires : ℕ
access_expires = 20

abbrev pub refresh_expires : ℕ
refresh_expires = 21

abbrev pub killed_at : ℕ
killed_at = 22

abbrev pub session : ℕ
session = 23

abbrev pub owner : ℕ
owner = 24

abbrev pub created_at : ℕ
created_at = 25

abbrev pub completed_at : ℕ
completed_at = 26

abbrev pub quote : ℕ
quote = 27

abbrev pub ack_timeout : ℕ
ack_timeout = 28

abbrev pub task : ℕ
task = 29

abbrev pub task_id : ℕ
task_id = 30

abbrev pub sent_at : ℕ
sent_at = 31

abbrev pub status : ℕ
status = 32

abbrev pub reason : ℕ
reason = 33

abbrev pub payload : ℕ
payload = 34
