-- ===== src/Authorization/Enums.antt =====
-- The enumerations of privileges and of throttled actions in src/LibForumData/AuthorizationPrivileges.h,
-- and the places of their members in the arrays that they index.
use forum.Base.{ℕ}

pub data DiscussionThreadMessagePrivilege : Type 0 where
  view view_required_privileges view_assigned_privileges view_creator_user view_ip_address
        view_votes up_vote down_vote reset_vote add_comment set_comment_to_solved
        get_message_comments change_content delete move adjust_privilege view_unapproved
        change_approval view_attachment view_unapproved_attachment add_attachment
        remove_attachment :
      DiscussionThreadMessagePrivilege

unfoldable pub message_position : DiscussionThreadMessagePrivilege → ℕ
message_position DiscussionThreadMessagePrivilege.view = 0
message_position DiscussionThreadMessagePrivilege.view_required_privileges = 1
message_position DiscussionThreadMessagePrivilege.view_assigned_privileges = 2
message_position DiscussionThreadMessagePrivilege.view_creator_user = 3
message_position DiscussionThreadMessagePrivilege.view_ip_address = 4
message_position DiscussionThreadMessagePrivilege.view_votes = 5
message_position DiscussionThreadMessagePrivilege.up_vote = 6
message_position DiscussionThreadMessagePrivilege.down_vote = 7
message_position DiscussionThreadMessagePrivilege.reset_vote = 8
message_position DiscussionThreadMessagePrivilege.add_comment = 9
message_position DiscussionThreadMessagePrivilege.set_comment_to_solved = 10
message_position DiscussionThreadMessagePrivilege.get_message_comments = 11
message_position DiscussionThreadMessagePrivilege.change_content = 12
message_position DiscussionThreadMessagePrivilege.delete = 13
message_position DiscussionThreadMessagePrivilege.move = 14
message_position DiscussionThreadMessagePrivilege.adjust_privilege = 15
message_position DiscussionThreadMessagePrivilege.view_unapproved = 16
message_position DiscussionThreadMessagePrivilege.change_approval = 17
message_position DiscussionThreadMessagePrivilege.view_attachment = 18
message_position DiscussionThreadMessagePrivilege.view_unapproved_attachment = 19
message_position DiscussionThreadMessagePrivilege.add_attachment = 20
message_position DiscussionThreadMessagePrivilege.remove_attachment = 21

pub data DiscussionThreadPrivilege : Type 0 where
  view view_required_privileges view_assigned_privileges get_subscribed_users subscribe unsubscribe
        add_message change_name change_pin_display_order add_tag remove_tag delete merge
        adjust_privilege auto_approve_message view_unapproved change_approval :
      DiscussionThreadPrivilege

unfoldable pub thread_position : DiscussionThreadPrivilege → ℕ
thread_position DiscussionThreadPrivilege.view = 0
thread_position DiscussionThreadPrivilege.view_required_privileges = 1
thread_position DiscussionThreadPrivilege.view_assigned_privileges = 2
thread_position DiscussionThreadPrivilege.get_subscribed_users = 3
thread_position DiscussionThreadPrivilege.subscribe = 4
thread_position DiscussionThreadPrivilege.unsubscribe = 5
thread_position DiscussionThreadPrivilege.add_message = 6
thread_position DiscussionThreadPrivilege.change_name = 7
thread_position DiscussionThreadPrivilege.change_pin_display_order = 8
thread_position DiscussionThreadPrivilege.add_tag = 9
thread_position DiscussionThreadPrivilege.remove_tag = 10
thread_position DiscussionThreadPrivilege.delete = 11
thread_position DiscussionThreadPrivilege.merge = 12
thread_position DiscussionThreadPrivilege.adjust_privilege = 13
thread_position DiscussionThreadPrivilege.auto_approve_message = 14
thread_position DiscussionThreadPrivilege.view_unapproved = 15
thread_position DiscussionThreadPrivilege.change_approval = 16

pub data DiscussionTagPrivilege : Type 0 where
  view view_required_privileges view_assigned_privileges get_discussion_threads change_name
        change_uiblob delete merge adjust_privilege :
      DiscussionTagPrivilege

unfoldable pub tag_position : DiscussionTagPrivilege → ℕ
tag_position DiscussionTagPrivilege.view = 0
tag_position DiscussionTagPrivilege.view_required_privileges = 1
tag_position DiscussionTagPrivilege.view_assigned_privileges = 2
tag_position DiscussionTagPrivilege.get_discussion_threads = 3
tag_position DiscussionTagPrivilege.change_name = 4
tag_position DiscussionTagPrivilege.change_uiblob = 5
tag_position DiscussionTagPrivilege.delete = 6
tag_position DiscussionTagPrivilege.merge = 7
tag_position DiscussionTagPrivilege.adjust_privilege = 8

pub data DiscussionCategoryPrivilege : Type 0 where
  view view_required_privileges view_assigned_privileges get_discussion_threads change_name
        change_description change_parent change_displayorder add_tag remove_tag delete
        adjust_privilege :
      DiscussionCategoryPrivilege

unfoldable pub category_position : DiscussionCategoryPrivilege → ℕ
category_position DiscussionCategoryPrivilege.view = 0
category_position DiscussionCategoryPrivilege.view_required_privileges = 1
category_position DiscussionCategoryPrivilege.view_assigned_privileges = 2
category_position DiscussionCategoryPrivilege.get_discussion_threads = 3
category_position DiscussionCategoryPrivilege.change_name = 4
category_position DiscussionCategoryPrivilege.change_description = 5
category_position DiscussionCategoryPrivilege.change_parent = 6
category_position DiscussionCategoryPrivilege.change_displayorder = 7
category_position DiscussionCategoryPrivilege.add_tag = 8
category_position DiscussionCategoryPrivilege.remove_tag = 9
category_position DiscussionCategoryPrivilege.delete = 10
category_position DiscussionCategoryPrivilege.adjust_privilege = 11

pub data ForumWidePrivilege : Type 0 where
  add_user get_entities_count get_version get_all_users get_user_info get_discussion_threads_of_user
        get_discussion_thread_messages_of_user get_subscribed_discussion_threads_of_user
        get_all_discussion_categories get_discussion_categories_from_root get_all_discussion_tags
        get_all_discussion_threads get_all_message_comments get_message_comments_of_user
        add_discussion_category add_discussion_tag add_discussion_thread change_own_user_name
        change_own_user_info change_any_user_name change_any_user_info delete_any_user
        view_forum_wide_required_privileges view_forum_wide_assigned_privileges
        view_user_assigned_privileges adjust_forum_wide_privilege change_own_user_title
        change_any_user_title change_own_user_signature change_any_user_signature
        change_own_user_logo change_any_user_logo delete_own_user_logo delete_any_user_logo
        no_throttling auto_approve_discussion_thread send_private_message
        view_private_message_ip_address create_attachment delete_own_attachment
        delete_any_attachment get_all_attachments get_attachments_of_user view_attachment_ip_address
        change_own_attachment_name change_any_attachment_name change_any_attachment_approval
        auto_approve_attachment change_user_attachment_quota :
      ForumWidePrivilege

unfoldable pub forum_wide_position : ForumWidePrivilege → ℕ
forum_wide_position ForumWidePrivilege.add_user = 0
forum_wide_position ForumWidePrivilege.get_entities_count = 1
forum_wide_position ForumWidePrivilege.get_version = 2
forum_wide_position ForumWidePrivilege.get_all_users = 3
forum_wide_position ForumWidePrivilege.get_user_info = 4
forum_wide_position ForumWidePrivilege.get_discussion_threads_of_user = 5
forum_wide_position ForumWidePrivilege.get_discussion_thread_messages_of_user = 6
forum_wide_position ForumWidePrivilege.get_subscribed_discussion_threads_of_user = 7
forum_wide_position ForumWidePrivilege.get_all_discussion_categories = 8
forum_wide_position ForumWidePrivilege.get_discussion_categories_from_root = 9
forum_wide_position ForumWidePrivilege.get_all_discussion_tags = 10
forum_wide_position ForumWidePrivilege.get_all_discussion_threads = 11
forum_wide_position ForumWidePrivilege.get_all_message_comments = 12
forum_wide_position ForumWidePrivilege.get_message_comments_of_user = 13
forum_wide_position ForumWidePrivilege.add_discussion_category = 14
forum_wide_position ForumWidePrivilege.add_discussion_tag = 15
forum_wide_position ForumWidePrivilege.add_discussion_thread = 16
forum_wide_position ForumWidePrivilege.change_own_user_name = 17
forum_wide_position ForumWidePrivilege.change_own_user_info = 18
forum_wide_position ForumWidePrivilege.change_any_user_name = 19
forum_wide_position ForumWidePrivilege.change_any_user_info = 20
forum_wide_position ForumWidePrivilege.delete_any_user = 21
forum_wide_position ForumWidePrivilege.view_forum_wide_required_privileges = 22
forum_wide_position ForumWidePrivilege.view_forum_wide_assigned_privileges = 23
forum_wide_position ForumWidePrivilege.view_user_assigned_privileges = 24
forum_wide_position ForumWidePrivilege.adjust_forum_wide_privilege = 25
forum_wide_position ForumWidePrivilege.change_own_user_title = 26
forum_wide_position ForumWidePrivilege.change_any_user_title = 27
forum_wide_position ForumWidePrivilege.change_own_user_signature = 28
forum_wide_position ForumWidePrivilege.change_any_user_signature = 29
forum_wide_position ForumWidePrivilege.change_own_user_logo = 30
forum_wide_position ForumWidePrivilege.change_any_user_logo = 31
forum_wide_position ForumWidePrivilege.delete_own_user_logo = 32
forum_wide_position ForumWidePrivilege.delete_any_user_logo = 33
forum_wide_position ForumWidePrivilege.no_throttling = 34
forum_wide_position ForumWidePrivilege.auto_approve_discussion_thread = 35
forum_wide_position ForumWidePrivilege.send_private_message = 36
forum_wide_position ForumWidePrivilege.view_private_message_ip_address = 37
forum_wide_position ForumWidePrivilege.create_attachment = 38
forum_wide_position ForumWidePrivilege.delete_own_attachment = 39
forum_wide_position ForumWidePrivilege.delete_any_attachment = 40
forum_wide_position ForumWidePrivilege.get_all_attachments = 41
forum_wide_position ForumWidePrivilege.get_attachments_of_user = 42
forum_wide_position ForumWidePrivilege.view_attachment_ip_address = 43
forum_wide_position ForumWidePrivilege.change_own_attachment_name = 44
forum_wide_position ForumWidePrivilege.change_any_attachment_name = 45
forum_wide_position ForumWidePrivilege.change_any_attachment_approval = 46
forum_wide_position ForumWidePrivilege.auto_approve_attachment = 47
forum_wide_position ForumWidePrivilege.change_user_attachment_quota = 48

pub data ForumWideDefaultPrivilegeDuration : Type 0 where
  create_discussion_thread create_discussion_thread_message : ForumWideDefaultPrivilegeDuration

unfoldable pub duration_position : ForumWideDefaultPrivilegeDuration → ℕ
duration_position ForumWideDefaultPrivilegeDuration.create_discussion_thread = 0
duration_position ForumWideDefaultPrivilegeDuration.create_discussion_thread_message = 1

pub data UserActionThrottling : Type 0 where
  new_content edit_content edit_privileges vote subscribe : UserActionThrottling
